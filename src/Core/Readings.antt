-- ===== src/Core/Readings.antt =====
-- ReadingQuality and Reading<T> of components/dali_core/include/dali/core/types.h. `T{}` is the
-- argument `d` of each function that leaves the value at its default.
use savantix_dali_edge_contr.Prelude.{ℕ, Bool, true, false}

pub data ReadingQuality : Type 0 where
  unknown valid estimated temporarily_unavailable unsupported invalid : ReadingQuality

pub record Reading (T : Type 0) : Type 0 where
  pub value : T
  pub quality : ReadingQuality
  pub uptime_ms : ℕ
  pub unix_time_seconds : ℕ
  pub unix_time_valid : Bool

module _ {T : Type 0} where
  -- `return {{}, quality, 0, 0, false}`
  abbrev pub bare_reading : T → ReadingQuality → Reading T
  bare_reading d quality = record {
    value = d;
    quality = quality;
    uptime_ms = 0;
    unix_time_seconds = 0;
    unix_time_valid = false;
  }

  abbrev pub unknown_reading : T → Reading T
  unknown_reading d = bare_reading d ReadingQuality.unknown

  abbrev pub valid_reading : T → ℕ → ℕ → Bool → Reading T
  valid_reading value uptime_ms unix_time_seconds has_unix_time = record {
    value = value;
    quality = ReadingQuality.valid;
    uptime_ms = uptime_ms;
    unix_time_seconds = unix_time_seconds;
    unix_time_valid = has_unix_time;
  }

  abbrev pub estimated_reading : T → ℕ → Reading T
  estimated_reading value uptime_ms = record {
    value = value;
    quality = ReadingQuality.estimated;
    uptime_ms = uptime_ms;
    unix_time_seconds = 0;
    unix_time_valid = false;
  }

  abbrev pub unsupported_reading : T → Reading T
  unsupported_reading d = bare_reading d ReadingQuality.unsupported

  abbrev pub unavailable_reading : T → Reading T
  unavailable_reading d = bare_reading d ReadingQuality.temporarily_unavailable

  abbrev pub invalid_reading : T → Reading T
  invalid_reading d = bare_reading d ReadingQuality.invalid

  abbrev pub has_value : Reading T → Bool
  has_value r = elim (r.quality) [
    | ReadingQuality.valid ↦ true
    | ReadingQuality.estimated ↦ true
    | _ ↦ false
  ]
