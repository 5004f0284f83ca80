-- ===== src/Trend/Extremes.antt =====
-- The extremes that RollingBaseline reports.
use savantix_dali_edge_contr.Prelude.{
  ◌^◌, ◌<◌, ◌≡◌, refl, sym, subst, ◌⊎◌, Bool, true, false, List, [], ◌∷◌, arith, ◌==◌,
  if◌then◌else◌, inl, inr, Bool-cases, length, FloatOps, All,
}
use savantix_dali_edge_contr.Trend.{RollingBaseline, new_baseline, add_value, minimum, maximum}

abbrev pub Member : {F : Type 0} → F → List F → Type 0
Member x [] = ⊥
Member x (y ∷ ys) = (x ≡ y) ⊎ Member x ys

-- `x` is extreme among values: none of them is before it.
abbrev pub IsExtreme : {F : Type 0} → (F → F → Bool) → F → List F → Type 0
IsExtreme before x values = Member x values × All (λ v. before v x ≡ false) values

-- What a strict order owes, also with values that are ordered with nothing (NaN).
pub record IsStrict {F : Type 0} (before : F → F → Bool) : Type 0 where
  pub irrefl : (x : F) → before x x ≡ false
  pub trans : (x y z : F) → before x y ≡ true → before y z ≡ true → before x z ≡ true

module _ {F : Type 0} (before : F → F → Bool) (strict : IsStrict before) where
  earlier_yet :
      (v x : F) (values : List F)
      → before v x ≡ true
      → All (λ w. before w x ≡ false) values
      → All (λ w. before w v ≡ false) values
  earlier_yet v x [] h a = tt
  earlier_yet v x (w ∷ values) h a = elim (Bool-cases (before w v)) [
    | inl under ↦ cc (strict.trans w v x under h, a.0)
    | inr fine ↦ (fine, earlier_yet v x values h a.1)
  ]

  IsExtreme-step :
      (v x : F) (values : List F)
      → IsExtreme before x values
      → IsExtreme before (if before v x then v else x) (v ∷ values)
  IsExtreme-step v x values (held, under) = elim (Bool-cases (before v x)) [
    | inl new ↦
        let same : (if before v x then v else x) ≡ v = rw new refl in
        subst (λ t. IsExtreme before t (v ∷ values)) (sym same)
          (inl refl, (strict.irrefl v, earlier_yet v x values new under))
    | inr old ↦
        let same : (if before v x then v else x) ≡ x = rw old refl in
        subst (λ t. IsExtreme before t (v ∷ values)) (sym same) (inr held, (old, under))
  ]

module _ {F : Type 0} (fl : FloatOps F) where
  -- The values are added newest first, so that the list is the history read backwards.
  abbrev pub add_all : List F → RollingBaseline F
  add_all [] = new_baseline fl
  add_all (value ∷ earlier) = add_value fl (add_all earlier) value

  abbrev pub after : F → F → Bool
  after x y = fl.lt y x

module _ {F : Type 0} (fl : FloatOps F) (strict : IsStrict fl.lt) where
  after-IsStrict : IsStrict (after fl)
  after-IsStrict = record {
    irrefl = λ x. strict.irrefl x;
    trans = λ x y z p q. strict.trans z y x q p;
  }

  record Holds (values : List F) (b : RollingBaseline F) : Type 0 where
    counted : b.count ≡ length values
    low : IsExtreme fl.lt b.minimum values
    high : IsExtreme (after fl) b.maximum values

  add_all-Holds :
      (v : F) (earlier : List F)
      → length (v ∷ earlier) < 2 ^ 32
      → Holds (v ∷ earlier) (add_all fl (v ∷ earlier))
  unfolding add_value
  add_all-Holds v [] room = record {
    counted = refl;
    low = (inl refl, (strict.irrefl v, tt));
    high = (inl refl, (strict.irrefl v, tt));
  }
  add_all-Holds v (w ∷ earlier) room =
      let b = add_all fl (w ∷ earlier) in
      let ih = add_all-Holds w earlier (omega arith) in
      let more : (b.count == 0) ≡ false = ground (arith, ih.counted) in
      rw more (record {
        counted = omega (arith, ih.counted);
        low = IsExtreme-step fl.lt strict v b.minimum (w ∷ earlier) ih.low;
        high = IsExtreme-step (after fl) after-IsStrict v b.maximum (w ∷ earlier) ih.high;
      })

  -- If the comparison of floats is a strict order, then after fewer than 2^32 values, and at least one, the
  -- count is theirs, the minimum is one of them that no value is below, and the maximum one that no value
  -- is above.
  pub add_all-extremes :
      (v : F) (earlier : List F)
      → length (v ∷ earlier) < 2 ^ 32
      → let b = add_all fl (v ∷ earlier) in
        (b.count ≡ length (v ∷ earlier))
        × IsExtreme fl.lt (minimum fl b) (v ∷ earlier)
        × IsExtreme (after fl) (maximum fl b) (v ∷ earlier)
  unfolding minimum maximum
  add_all-extremes v earlier room =
      let h = add_all-Holds v earlier room in
      let b = add_all fl (v ∷ earlier) in
      let some_values : (b.count == 0) ≡ false = ground (arith, h.counted) in
      let least : minimum fl b ≡ b.minimum = rw (some_values, minimum) refl in
      let greatest : maximum fl b ≡ b.maximum = rw (some_values, maximum) refl in
      (
        h.counted,
        subst (λ t. IsExtreme fl.lt t (v ∷ earlier)) (sym least) h.low,
        subst (λ t. IsExtreme (after fl) t (v ∷ earlier)) (sym greatest) h.high,
      )
