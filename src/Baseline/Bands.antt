-- ===== src/Baseline/Bands.antt =====
-- The bands of BaselineStore, each on its own.
use savantix_dali_edge_contr.Prelude.{
  ℕ, ◌<◌, ◌≡◌, refl, ap, ◌∙◌, Bool, not, ◌&&◌, ltb, leb, List, [], ◌∷◌, arith, ◌==◌, if◌then◌else◌,
  inl, inr, Bool-cases, ==_iff, length, length-set, get_or-set_self, get_or-set_ne,
  get_or-replicate, FloatOps,
}
use savantix_dali_edge_contr.Core.{has_value}
use savantix_dali_edge_contr.Baseline.{
  LevelBand, band_code, BaselineObservation, BandStats, BaselineStore, band_for, is_refused,
  default_stats, new_store, stats_of, accumulate, update, mean_input_power, mean_output_current,
  sample_count,
}

-- The levels of a band.
abbrev pub covers : LevelBand → ℕ → Bool
covers LevelBand.band1 level = leb level 20
covers LevelBand.band2 level = ltb 20 level && leb level 40
covers LevelBand.band3 level = ltb 40 level && leb level 60
covers LevelBand.band4 level = ltb 60 level && leb level 80
covers LevelBand.band5 level = ltb 80 level

band_for-covers :
    (level : ℕ) (band : LevelBand)
    → (band_code (band_for level) == band_code band) ≡ covers band level
unfolding band_for
band_for-covers level LevelBand.band1 = ground arith
band_for-covers level LevelBand.band2 = ground arith
band_for-covers level LevelBand.band3 = ground arith
band_for-covers level LevelBand.band4 = ground arith
band_for-covers level LevelBand.band5 = ground arith

module _ {F : Type 0} where
  abbrev pub is_usable : BaselineObservation F → Bool
  is_usable o =
      (o.stable && o.healthy)
      && (o.communication_acceptable && (has_value o.input_power && has_value o.output_current))

  refused-usable : (o : BaselineObservation F) → not (is_refused o) ≡ is_usable o
  refused-usable o = ground arith

  -- The observations of a history, each at its commanded level, that are for a band.
  abbrev pub accepted : LevelBand → List (ℕ × BaselineObservation F) → List (BaselineObservation F)
  accepted band [] = []
  accepted band ((level, o) ∷ history) =
      if is_usable o && covers band level then o ∷ accepted band history else accepted band history

module _ {F : Type 0} (fl : FloatOps F) where
  abbrev pub update_all : List (ℕ × BaselineObservation F) → BaselineStore F → BaselineStore F
  update_all [] store = store
  update_all ((level, o) ∷ history) store = update_all history (update fl store level o).1

  -- The statistics of one series of observations.
  abbrev pub accumulate_all : List (BaselineObservation F) → BandStats F → BandStats F
  accumulate_all [] stats = stats
  accumulate_all (o ∷ os) stats = accumulate_all os (accumulate fl stats o)

  length-update :
      (store : BaselineStore F) (level : ℕ) (o : BaselineObservation F)
      → length store.bands ≡ 5
      → length (update fl store level o).1.bands ≡ 5
  unfolding update
  length-update store level o sized = elim (Bool-cases (is_refused o)) [
    | inl refused ↦ rw refused sized
    | inr fine ↦ rw fine (
        length-set store.bands (band_code (band_for level))
          (accumulate fl (stats_of fl store (band_for level)) o)
        ∙ sized)
  ]

  band_code-lt : (band : LevelBand) → band_code band < 5
  band_code-lt LevelBand.band1 = omega arith
  band_code-lt _ = omega arith

  stats_of-update :
      (store : BaselineStore F) (level : ℕ) (o : BaselineObservation F) (band : LevelBand)
      → length store.bands ≡ 5
      → stats_of fl (update fl store level o).1 band ≡ (
          if not (is_refused o) && band_code (band_for level) == band_code band
          then accumulate fl (stats_of fl store band) o
          else stats_of fl store band)
  unfolding update
  stats_of-update store level o band sized = elim (Bool-cases (is_refused o)) [
    | inl refused ↦ rw refused refl
    | inr fine ↦ elim (Bool-cases (band_code (band_for level) == band_code band)) [
      | inl own ↦
          let same = (==_iff (band_code (band_for level)) (band_code band)).0 own in
          rw (fine, own, same)
            (get_or-set_self store.bands (band_code band) (accumulate fl (stats_of fl store band) o)
              (default_stats fl) (omega (arith, band_code-lt band, sized)))
      | inr other ↦
          rw (fine, other)
            (get_or-set_ne store.bands (accumulate fl (stats_of fl store (band_for level)) o)
              (default_stats fl) (λ e. cc ((==_iff _ _).1 e, other)))
    ]
  ]

  update_in_band :
      (store : BaselineStore F) (level : ℕ) (o : BaselineObservation F) (band : LevelBand)
      → length store.bands ≡ 5
      → stats_of fl (update fl store level o).1 band ≡ (
          if is_usable o && covers band level
          then accumulate fl (stats_of fl store band) o
          else stats_of fl store band)
  update_in_band store level o band sized =
      stats_of-update store level o band sized
      ∙ ap (λ b. if b then accumulate fl (stats_of fl store band) o else stats_of fl store band)
          (rw (refused-usable o, band_for-covers level band) refl)

  update_all-accepted :
      (history : List (ℕ × BaselineObservation F)) (store : BaselineStore F) (band : LevelBand)
      → length store.bands ≡ 5
      → stats_of fl (update_all history store) band
        ≡ accumulate_all (accepted band history) (stats_of fl store band)
  update_all-accepted [] store band sized = refl
  update_all-accepted ((level, o) ∷ history) store band sized =
      let rest =
        update_all-accepted history (update fl store level o).1 band
          (length-update store level o sized) in
      let first = update_in_band store level o band sized in
      elim (Bool-cases (is_usable o && covers band level)) [
        | inl mine ↦ rw mine (rest ∙ ap (accumulate_all (accepted band history)) (rw mine at first))
        | inr not_mine ↦
            rw not_mine (rest ∙ ap (accumulate_all (accepted band history)) (rw not_mine at first))
      ]

  -- What a new store says of a band after any history of observations is what a single series of
  -- statistics says that was given only those which are stable, healthy, well communicated, measured in
  -- both values and in that band: no other observation touches the band.
  pub update_all-bands :
      (history : List (ℕ × BaselineObservation F)) (band : LevelBand)
      → let store = update_all history (new_store fl) in
        let own = accumulate_all (accepted band history) (default_stats fl) in
        (sample_count fl store band ≡ own.count)
        × (mean_input_power fl store band ≡ own.input_power_mean)
        × (mean_output_current fl store band ≡ own.output_current_mean)
  unfolding sample_count mean_input_power mean_output_current
  update_all-bands history band =
      let empty : stats_of fl (new_store fl) band ≡ default_stats fl =
        get_or-replicate 5 (band_code band) (default_stats fl) in
      let whole =
        update_all-accepted history (new_store fl) band refl
        ∙ ap (accumulate_all (accepted band history)) empty in
      (
        ap (λ s. s.count) whole,
        ap (λ s. s.input_power_mean) whole,
        ap (λ s. s.output_current_mean) whole,
      )
