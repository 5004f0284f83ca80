-- ===== src/Storage.antt =====
-- EventHistory, of components/local_storage/include/dali/storage/local_storage.h and local_storage.cpp.
use savantix_dali_edge_contr.Prelude.{
  ℕ, zero, suc, ◌+◌, ◌-◌, ◌%◌, Bool, true, List, [], ◌∷◌, ltb, ◌==◌, if◌then◌else◌, get_or, set,
  replicate, bit_xor, u16, FloatOps,
}
use savantix_dali_edge_contr.Core.{LightEvent, default_event}
use savantix_dali_edge_contr.Gateway.{crc_from}
pub mod Window
pub mod Recovery
pub mod Corruption
pub mod Metadata

pub record StoredEvent (F : Type 0) : Type 0 where
  pub sequence : ℕ
  pub timestamp : ℕ
  pub event : LightEvent F
  pub crc : ℕ

pub record EventHistory (F : Type 0) : Type 0 where
  pub records : List (StoredEvent F)
  pub head : ℕ
  pub size : ℕ

abbrev pub history_capacity : ℕ
history_capacity = 128

module _ {F : Type 0} (fl : FloatOps F) where
  abbrev pub default_stored : StoredEvent F
  default_stored = record { sequence = 0; timestamp = 0; event = default_event fl; crc = 0 }

  abbrev pub empty_history : EventHistory F
  empty_history = record { records = replicate history_capacity default_stored; head = 0; size = 0 }

  -- `bytes_of` gives the bytes of the object before its member `crc`, as the compiler lays it out.
  module _ (bytes_of : StoredEvent F → List ℕ) where
    abbrev pub checksum : StoredEvent F → ℕ
    checksum event = crc_from 0xffff (bytes_of event)

    -- The event as `append` stores it.
    abbrev pub sealed : StoredEvent F → StoredEvent F
    sealed event = record event { crc = checksum (record event { crc = 0 }) }

    unfoldable pub append : EventHistory F → StoredEvent F → Bool × EventHistory F
    append history event =
        let index = (history.head + history.size) % history_capacity in
        let records' = set history.records index (sealed event) in
        if ltb history.size history_capacity
        then (true, record history { records = records'; size = history.size + 1 })
        else (
          true,
          record history { records = records'; head = (history.head + 1) % history_capacity },
        )

    -- `recover`'s loop with `n` rounds left, at the round `i`: the events that it still adds.
    abbrev pub recover_rounds : EventHistory F → ℕ → ℕ → List (StoredEvent F)
    recover_rounds history zero i = []
    recover_rounds history (suc n) i =
        let event = get_or history.records ((history.head + i) % history_capacity) default_stored in
        let later = recover_rounds history n (i + 1) in
        if event.crc == checksum event then event ∷ later else later

    -- The first `size` entries of the array that `recover` returns.
    abbrev pub recover : EventHistory F → List (StoredEvent F)
    recover history = recover_rounds history history.size 0

  unfoldable pub corrupt_newest_for_test : EventHistory F → EventHistory F
  corrupt_newest_for_test history =
      let index = (history.head + history.size - 1) % history_capacity in
      let newest = get_or history.records index default_stored in
      if history.size == 0 then history else record history {
        records =
            set history.records index (record newest { crc = u16 (bit_xor newest.crc 0xffff) });
      }
