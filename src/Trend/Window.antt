-- ===== src/Trend/Window.antt =====
-- What TrendSeries has of all the samples that were added to it.
use savantix_dali_edge_contr.Prelude.{
  ℕ, zero, suc, ◌+◌, ◌%◌, ◌^◌, ◌<◌, ◌≤◌, ◌≡◌, refl, sym, ap, ap₂, ◌∙◌, Bool, true, false, ◌&&◌,
  List, [], ◌∷◌, ◌++◌, arith, ltb, leb, if◌then◌else◌, inl, inr, Bool-cases, length, length-set,
  length-append, length-take, get_or, set, take, drop, count_if, count_if-append, append_assoc,
  append_nil, take-drop, take-set_next, drop-set_before, drop-all, take-all, append-take, drop_one,
  drop-append, length-drop, push_within, last_of, push_within-last_of, FloatOps,
}
use savantix_dali_edge_contr.Trend.{
  TrendSeries, Sample, Tally, series_capacity, default_sample, new_series, new_tally, add_sample,
  take_sample, tally_from, evaluate,
}

module _ {F : Type 0} where
  record IsValid (s : TrendSeries F) : Type 0 where
    sized : length s.samples ≡ series_capacity
    next_in : s.next < series_capacity
    count_in : s.count ≤ series_capacity
    unwrapped : ltb s.count series_capacity ≡ true → s.next ≡ s.count

  -- The samples that are held, oldest first.
  abbrev contents : TrendSeries F → List (Sample F)
  contents s =
      if ltb s.count series_capacity
      then take s.count s.samples
      else drop s.next s.samples ++ take s.next s.samples

  -- `samples_[next_] = sample` and what follows it.
  abbrev added : TrendSeries F → Sample F → TrendSeries F
  added s x = record {
    samples = set s.samples s.next x;
    next = (s.next + 1) % series_capacity;
    count = if ltb s.count series_capacity then s.count + 1 else s.count;
  }

  added-IsValid : (s : TrendSeries F) (x : Sample F) → IsValid s → IsValid (added s x)
  added-IsValid s x v = record {
    sized = length-set s.samples s.next x ∙ v.sized;
    next_in = omega arith;
    count_in = ground (arith, v.count_in);
    unwrapped = λ h. ground (arith, v.unwrapped, v.count_in, v.next_in, h);
  }

  -- Where the next write is to the last slot, all slots are in order again.
  added-last :
      (s : TrendSeries F) (x : Sample F)
      → length s.samples ≡ series_capacity
      → s.next + 1 ≡ series_capacity
      → set s.samples s.next x ≡ take s.next s.samples ++ x ∷ []
  added-last s x sized last =
      sym (
        take-all (s.next + 1) (set s.samples s.next x)
          (omega (arith, length-set s.samples s.next x)))
      ∙ take-set_next s.next s.samples x (omega arith)

  added-growing :
      (s : TrendSeries F) (x : Sample F)
      → IsValid s
      → ltb s.count series_capacity ≡ true
      → contents (added s x) ≡ contents s ++ x ∷ []
  added-growing s x v room =
      let at : s.next ≡ s.count = v.unwrapped room in
      elim (Bool-cases (ltb (s.count + 1) series_capacity)) [
        | inl more ↦
            rw (room, more, at) (take-set_next s.count s.samples x (ground (arith, v.sized)))
        | inr full ↦
            let last : s.next + 1 ≡ series_capacity = ground arith in
            let wrapped : (s.next + 1) % series_capacity ≡ 0 = omega arith in
            rw (room, full, wrapped)
              (append_nil (set s.samples s.next x)
                ∙ (added-last s x v.sized last ∙ ap (λ n. take n s.samples ++ x ∷ []) at))
      ]

  added-turning :
      (s : TrendSeries F) (x : Sample F)
      → IsValid s
      → ltb s.count series_capacity ≡ false
      → contents (added s x) ≡ drop 1 (contents s) ++ x ∷ []
  added-turning s x v full =
      let following : suc s.next ≡ s.next + 1 = omega arith in
      let front : drop 1 (drop s.next s.samples ++ take s.next s.samples)
          ≡ drop (s.next + 1) s.samples ++ take s.next s.samples =
        drop-append 1 (drop s.next s.samples) (take s.next s.samples)
          (omega (arith, length-drop s.next s.samples, v.sized, v.next_in))
        ∙ ap (λ t. t ++ take s.next s.samples)
            (drop_one s.next s.samples ∙ ap (λ (n : ℕ). drop n s.samples) following) in
      elim (Bool-cases (ltb (s.next + 1) series_capacity)) [
        | inl more ↦
            let step : (s.next + 1) % series_capacity ≡ s.next + 1 = ground arith in
            rw (full, step, front)
              (rw full (
                ap₂ ◌++◌ (drop-set_before s.next s.samples x)
                  (take-set_next s.next s.samples x (omega (arith, v.sized, v.next_in)))
                ∙ sym
                    (append_assoc (drop (s.next + 1) s.samples) (take s.next s.samples) (x ∷ []))))
        | inr end ↦
            let last : s.next + 1 ≡ series_capacity = ground (arith, v.next_in) in
            let wrapped : (s.next + 1) % series_capacity ≡ 0 = omega arith in
            let empty : drop (s.next + 1) s.samples ≡ [] =
              drop-all (s.next + 1) s.samples (omega (arith, v.sized)) in
            rw (full, wrapped, front, empty)
              (rw full (append_nil (set s.samples s.next x) ∙ added-last s x v.sized last))
      ]

  length-contents : (s : TrendSeries F) → IsValid s → length (contents s) ≡ s.count
  length-contents s v = elim (Bool-cases (ltb s.count series_capacity)) [
    | inl room ↦ rw room (omega (arith, length-take s.count s.samples, v.sized, v.count_in))
    | inr full ↦ rw full (
        ground (
          arith,
          length-append (drop s.next s.samples) (take s.next s.samples),
          length-drop s.next s.samples,
          length-take s.next s.samples,
          v.sized,
          v.next_in,
          v.count_in,
          full,
        ))
  ]

  added-contents :
      (s : TrendSeries F) (x : Sample F)
      → IsValid s
      → contents (added s x) ≡ push_within series_capacity (contents s) x
  added-contents s x v =
      let size = length-contents s v in
      elim (Bool-cases (ltb s.count series_capacity)) [
        | inl room ↦
            let short : ltb (length (contents s)) series_capacity ≡ true = rw size room in
            added-growing s x v room ∙ sym (rw short refl)
        | inr full ↦
            let long : ltb (length (contents s)) series_capacity ≡ false = rw size full in
            added-turning s x v full ∙ sym (rw long refl)
      ]

module _ {F : Type 0} (fl : FloatOps F) where
  abbrev pub add_samples : List (Sample F) → TrendSeries F → TrendSeries F
  add_samples [] s = s
  add_samples (x ∷ xs) s = add_samples xs (add_sample fl s x.timestamp_ms x.value)

  add_samples-contents :
      (xs past : List (Sample F)) (s : TrendSeries F)
      → IsValid s
      → contents s ≡ last_of series_capacity past
      → IsValid (add_samples xs s)
        × (contents (add_samples xs s) ≡ last_of series_capacity (past ++ xs))
  unfolding add_sample
  add_samples-contents [] past s v e = (v, e ∙ ap (last_of series_capacity) (sym (append_nil past)))
  add_samples-contents (x ∷ xs) past s v e =
      let held =
        added-contents s x v
        ∙ (ap (λ t. push_within series_capacity t x) e
            ∙ push_within-last_of series_capacity past x (omega arith)) in
      let (v', all) =
        add_samples-contents xs (past ++ x ∷ []) (added s x) (added-IsValid s x v) held in
      (v', all ∙ ap (last_of series_capacity) (append_assoc past (x ∷ []) xs))

  -- Whether a sample is of the thirty days before now.
  abbrev pub is_recent : ℕ → Sample F → Bool
  is_recent now x = leb x.timestamp_ms now && leb now (x.timestamp_ms + 2592000000)

  tally_from-count :
      (now : ℕ) (s : TrendSeries F) (n i : ℕ) (t : Tally F)
      → i + n ≤ length s.samples
      → t.thirty_count + n < 2 ^ 32
      → (tally_from fl now s n i t).thirty_count
        ≡ t.thirty_count + count_if (is_recent now) (take n (drop i s.samples))
  unfolding take_sample
  tally_from-count now s zero i t inside room = omega arith
  tally_from-count now s (suc n) i t inside room =
      let x = get_or s.samples i (default_sample fl) in
      let t' = take_sample fl now t x in
      let one : t'.thirty_count ≡ t.thirty_count + (if is_recent now x then 1 else 0) =
        ground arith in
      let bound : t'.thirty_count + n < 2 ^ 32 = ground (arith, one) in
      let rest = tally_from-count now s n (i + 1) t' (omega arith) bound in
      let split =
        ap (count_if (is_recent now)) (take-drop n i s.samples (default_sample fl) (omega arith)) in
      ground (arith, rest, one, split)

  held-count :
      (p : Sample F → Bool) (s : TrendSeries F)
      → IsValid s
      → count_if p (take s.count s.samples) ≡ count_if p (contents s)
  held-count p s v = elim (Bool-cases (ltb s.count series_capacity)) [
    | inl room ↦ rw room refl
    | inr full ↦
        let whole = ap (count_if p) (append-take s.next s.samples) in
        let front = take s.next s.samples in
        let back = drop s.next s.samples in
        let all =
          ap (count_if p)
            (take-all s.count s.samples (ground (arith, v.sized, v.count_in, full))) in
        rw full
          (omega (arith, whole, all, count_if-append p front back, count_if-append p back front))
  ]

  -- Of any number of samples added to a new series, evaluate counts those of the last 1024 that are of the
  -- thirty days up to now: neither later nor older. It calls the trend meaningful only with ten of them.
  pub evaluate-recent :
      (xs : List (Sample F)) (now : ℕ)
      → let result = evaluate fl (add_samples xs (new_series fl)) now in
        let recent = count_if (is_recent now) (last_of series_capacity xs) in
        (result.sample_count ≡ recent)
        × ((result.statistically_meaningful && ltb recent 10) ≡ false)
  unfolding evaluate
  evaluate-recent xs now =
      let s = add_samples xs (new_series fl) in
      let new_IsValid : IsValid (new_series fl) = record {
        sized = refl;
        next_in = omega arith;
        count_in = omega arith;
        unwrapped = λ h. refl;
      } in
      let (v, held) = add_samples-contents xs [] (new_series fl) new_IsValid refl in
      let loop =
        tally_from-count now s s.count 0 (new_tally fl now) (omega (arith, v.sized, v.count_in))
          (omega (arith, v.count_in)) in
      let kept = held-count (is_recent now) s v ∙ ap (count_if (is_recent now)) held in
      let counted : (tally_from fl now s s.count 0 (new_tally fl now)).thirty_count
          ≡ count_if (is_recent now) (last_of series_capacity xs) =
        omega (arith, loop, kept) in
      (counted, ground (arith, counted))
