-- ===== src/Baseline.antt =====
-- BaselineStore, of components/baseline_engine/include/dali/baseline/baseline_engine.h and
-- baseline_engine.cpp: the means of power and current for five bands of the commanded level.
use savantix_dali_edge_contr.Prelude.{
  ℕ, ◌+◌, Bool, true, false, not, ◌&&◌, ◌||◌, List, leb, if◌then◌else◌, get_or, set, replicate, u32,
  FloatOps,
}
use savantix_dali_edge_contr.Core.{Reading, has_value}
pub mod Bands

pub data LevelBand : Type 0 where
  band1 band2 band3 band4 band5 : LevelBand

abbrev pub band_code : LevelBand → ℕ
band_code LevelBand.band1 = 0
band_code LevelBand.band2 = 1
band_code LevelBand.band3 = 2
band_code LevelBand.band4 = 3
band_code LevelBand.band5 = 4

pub record BaselineObservation (F : Type 0) : Type 0 where
  pub stable : Bool
  pub healthy : Bool
  pub communication_acceptable : Bool
  pub input_power : Reading F
  pub output_current : Reading F

pub record BandStats (F : Type 0) : Type 0 where
  pub count : ℕ
  pub input_power_mean : F
  pub output_current_mean : F

pub record BaselineStore (F : Type 0) : Type 0 where
  pub bands : List (BandStats F)

unfoldable pub band_for : ℕ → LevelBand
band_for level =
    if leb level 20
    then LevelBand.band1
    else if leb level 40
    then LevelBand.band2
    else if leb level 60
    then LevelBand.band3
    else if leb level 80
    then LevelBand.band4
    else LevelBand.band5

-- The condition under which `update` returns early.
abbrev pub is_refused : {F : Type 0} → BaselineObservation F → Bool
is_refused observation =
    not observation.stable
    || (not observation.healthy
        || (not observation.communication_acceptable
            || (not (has_value observation.input_power)
                || not (has_value observation.output_current))))

module _ {F : Type 0} (fl : FloatOps F) where
  abbrev pub default_stats : BandStats F
  default_stats = record {
    count = 0;
    input_power_mean = fl.lit 0 0;
    output_current_mean = fl.lit 0 0;
  }

  abbrev pub new_store : BaselineStore F
  new_store = record { bands = replicate 5 default_stats }

  -- `bands_[static_cast<std::size_t>(band)]`
  abbrev pub stats_of : BaselineStore F → LevelBand → BandStats F
  stats_of store band = get_or store.bands (band_code band) default_stats

  -- `mean += (value - mean) / count`
  abbrev pub moved : F → F → F → F
  moved mean value count = fl.add mean (fl.div (fl.sub value mean) count)

  -- The three assignments to `stats`.
  unfoldable pub accumulate : BandStats F → BaselineObservation F → BandStats F
  accumulate stats observation =
      let count = u32 (stats.count + 1) in
      record {
        count = count;
        input_power_mean =
            moved stats.input_power_mean observation.input_power.value (fl.of_nat count);
        output_current_mean =
            moved stats.output_current_mean observation.output_current.value (fl.of_nat count);
      }

  unfoldable pub update : BaselineStore F → ℕ → BaselineObservation F → Bool × BaselineStore F
  update store commanded_level observation =
      let band = band_for commanded_level in
      if is_refused observation then (false, store) else (
        true,
        record {
          bands = set store.bands (band_code band) (accumulate (stats_of store band) observation);
        },
      )

  unfoldable pub mean_input_power : BaselineStore F → LevelBand → F
  mean_input_power store band = (stats_of store band).input_power_mean

  unfoldable pub mean_output_current : BaselineStore F → LevelBand → F
  mean_output_current store band = (stats_of store band).output_current_mean

  unfoldable pub sample_count : BaselineStore F → LevelBand → ℕ
  sample_count store band = (stats_of store band).count
