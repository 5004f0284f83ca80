-- ===== src/Trend.antt =====
-- RollingBaseline and TrendSeries, of components/trend_engine/include/dali/trend/trend_engine.h and
-- trend_engine.cpp.
use savantix_dali_edge_contr.Prelude.{
  ℕ, zero, suc, ◌+◌, ◌-◌, ◌*◌, ◌%◌, Bool, true, false, ◌&&◌, List, ltb, leb, ◌==◌, if◌then◌else◌,
  get_or, set, replicate, u32, FloatOps,
}
pub mod Extremes
pub mod Window

pub record RollingBaseline (F : Type 0) : Type 0 where
  pub count : ℕ
  pub mean : F
  pub m2 : F
  pub minimum : F
  pub maximum : F

pub record TrendResult (F : Type 0) : Type 0 where
  pub sample_count : ℕ
  pub seven_day_average : F
  pub thirty_day_average : F
  pub exponentially_weighted_average : F
  pub rate_of_change : F
  pub statistically_meaningful : Bool

pub record Sample (F : Type 0) : Type 0 where
  pub timestamp_ms : ℕ
  pub value : F

pub record TrendSeries (F : Type 0) : Type 0 where
  pub samples : List (Sample F)
  pub next : ℕ
  pub count : ℕ

-- The variables of `evaluate`'s loop.
pub record Tally (F : Type 0) : Type 0 where
  pub seven_sum : F
  pub thirty_sum : F
  pub ewma : F
  pub oldest : F
  pub newest : F
  pub seven_count : ℕ
  pub thirty_count : ℕ
  pub oldest_time : ℕ
  pub newest_time : ℕ

abbrev pub series_capacity : ℕ
series_capacity = 1024

abbrev pub seven_days_ms : ℕ
seven_days_ms = 7 * 24 * 3600000

abbrev pub thirty_days_ms : ℕ
thirty_days_ms = 30 * 24 * 3600000

module _ {F : Type 0} (fl : FloatOps F) where
  abbrev pub new_baseline : RollingBaseline F
  new_baseline = record {
    count = 0;
    mean = fl.lit 0 0;
    m2 = fl.lit 0 0;
    minimum = fl.lit 0 0;
    maximum = fl.lit 0 0;
  }

  unfoldable pub add_value : RollingBaseline F → F → RollingBaseline F
  add_value b value =
      let first = b.count == 0 in
      let count = u32 (b.count + 1) in
      let delta = fl.sub value b.mean in
      let mean = fl.add b.mean (fl.div delta (fl.of_nat count)) in
      let delta2 = fl.sub value mean in
      record {
        count = count;
        mean = mean;
        m2 = fl.add b.m2 (fl.mul delta delta2);
        minimum = if first then value else if fl.lt value b.minimum then value else b.minimum;
        maximum = if first then value else if fl.lt b.maximum value then value else b.maximum;
      }

  abbrev pub standard_deviation : RollingBaseline F → F
  standard_deviation b =
      if ltb b.count 2 then fl.lit 0 0 else fl.sqrt (fl.div b.m2 (fl.of_nat (b.count - 1)))

  unfoldable pub minimum : RollingBaseline F → F
  minimum b = if b.count == 0 then fl.lit 0 0 else b.minimum

  unfoldable pub maximum : RollingBaseline F → F
  maximum b = if b.count == 0 then fl.lit 0 0 else b.maximum

  abbrev pub default_sample : Sample F
  default_sample = record { timestamp_ms = 0; value = fl.lit 0 0 }

  abbrev pub new_series : TrendSeries F
  new_series = record { samples = replicate series_capacity default_sample; next = 0; count = 0 }

  unfoldable pub add_sample : TrendSeries F → ℕ → F → TrendSeries F
  add_sample s timestamp_ms value = record {
    samples = set s.samples s.next (record { timestamp_ms = timestamp_ms; value = value });
    next = (s.next + 1) % series_capacity;
    count = if ltb s.count series_capacity then s.count + 1 else s.count;
  }

  abbrev pub new_tally : ℕ → Tally F
  new_tally now_ms = record {
    seven_sum = fl.lit 0 0;
    thirty_sum = fl.lit 0 0;
    ewma = fl.lit 0 0;
    oldest = fl.lit 0 0;
    newest = fl.lit 0 0;
    seven_count = 0;
    thirty_count = 0;
    oldest_time = now_ms;
    newest_time = 0;
  }

  -- The body of the loop for a sample that is not later than now.
  abbrev pub counted : ℕ → Tally F → Sample F → Tally F
  counted now_ms t sample =
      let age = now_ms - sample.timestamp_ms in
      let in_thirty = leb age thirty_days_ms in
      let in_seven = leb age seven_days_ms in
      let older = ltb sample.timestamp_ms t.oldest_time in
      let newer = leb t.newest_time sample.timestamp_ms in
      record {
        seven_sum = if in_seven then fl.add t.seven_sum sample.value else t.seven_sum;
        thirty_sum = if in_thirty then fl.add t.thirty_sum sample.value else t.thirty_sum;
        ewma =
            if fl.eq t.ewma (fl.lit 0 0)
            then sample.value
            else fl.add (fl.mul (fl.lit 2 1) sample.value) (fl.mul (fl.lit 8 1) t.ewma);
        oldest = if older then sample.value else t.oldest;
        newest = if newer then sample.value else t.newest;
        seven_count = if in_seven then u32 (t.seven_count + 1) else t.seven_count;
        thirty_count = if in_thirty then u32 (t.thirty_count + 1) else t.thirty_count;
        oldest_time = if older then sample.timestamp_ms else t.oldest_time;
        newest_time = if newer then sample.timestamp_ms else t.newest_time;
      }

  -- The body of the loop.
  unfoldable pub take_sample : ℕ → Tally F → Sample F → Tally F
  take_sample now_ms t sample =
      if ltb now_ms sample.timestamp_ms then t else counted now_ms t sample

  -- The loop with `n` rounds left from `i` on.
  abbrev pub tally_from : ℕ → TrendSeries F → ℕ → ℕ → Tally F → Tally F
  tally_from now_ms s zero i t = t
  tally_from now_ms s (suc n) i t =
      tally_from now_ms s n (i + 1) (take_sample now_ms t (get_or s.samples i default_sample))

  abbrev pub average : F → ℕ → F
  average sum count = if count == 0 then fl.lit 0 0 else fl.div sum (fl.of_nat count)

  unfoldable pub evaluate : TrendSeries F → ℕ → TrendResult F
  evaluate s now_ms =
      let t = tally_from now_ms s s.count 0 (new_tally now_ms) in
      let rate =
        if ltb t.oldest_time t.newest_time
        then fl.div (fl.sub t.newest t.oldest) (fl.of_nat (t.newest_time - t.oldest_time))
        else fl.lit 0 0 in
      record {
        sample_count = t.thirty_count;
        seven_day_average = average t.seven_sum t.seven_count;
        thirty_day_average = average t.thirty_sum t.thirty_count;
        exponentially_weighted_average = t.ewma;
        rate_of_change = rate;
        statistically_meaningful = leb 10 t.thirty_count && fl.lt (fl.lit 1 6) (fl.fabs rate);
      }
