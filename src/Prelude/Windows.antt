-- ===== src/Prelude/Windows.antt =====
-- Parts of lists, and windows: the last elements of a growing list, as a ring keeps them.
use Prim.Native.Nat.{ℕ, zero, suc, ◌+◌, ◌-◌, ◌<◌, ◌≤◌}
use mathlib.Core.Path.{◌≡◌, refl, sym, ap, ◌∙◌}
use mathlib.Core.Logic.{inl, inr}
use mathlib.Core.Bool.{Bool, false}
use mathlib.Core.List.{List, [], ◌∷◌, ◌++◌}
use native.Mathlib.Omega.{arith}
use savantix_dali_edge_contr.Prelude.Tests.{ltb, if◌then◌else◌, Bool-cases}
use savantix_dali_edge_contr.Prelude.Lists.{length, length-append, get_or, set, take, drop}
use savantix_dali_edge_contr.Prelude.Search.{count_if}

module _ {ℓ} {A : Type ℓ} where
  pub drop-append : (n : ℕ) (xs ys : List A) → n ≤ length xs → drop n (xs ++ ys) ≡ drop n xs ++ ys
  drop-append zero xs ys h = refl
  drop-append (suc n) [] ys h = absurd (omega arith)
  drop-append (suc n) (x ∷ xs) ys h = drop-append n xs ys (omega arith)

  pub drop_one : (n : ℕ) (xs : List A) → drop 1 (drop n xs) ≡ drop (suc n) xs
  drop_one zero xs = refl
  drop_one (suc n) [] = refl
  drop_one (suc n) (x ∷ xs) = drop_one n xs

  pub length-drop : (n : ℕ) (xs : List A) → length (drop n xs) ≡ length xs - n
  length-drop zero xs = omega arith
  length-drop (suc n) [] = omega arith
  length-drop (suc n) (x ∷ xs) = omega (arith, length-drop n xs)

  pub drop-all : (n : ℕ) (xs : List A) → length xs ≤ n → drop n xs ≡ []
  drop-all zero [] h = refl
  drop-all zero (x ∷ xs) h = absurd (omega arith)
  drop-all (suc n) [] h = refl
  drop-all (suc n) (x ∷ xs) h = drop-all n xs (omega arith)

  pub take-all : (n : ℕ) (xs : List A) → length xs ≤ n → take n xs ≡ xs
  take-all zero [] h = refl
  take-all zero (x ∷ xs) h = absurd (omega arith)
  take-all (suc n) [] h = refl
  take-all (suc n) (x ∷ xs) h = ap (λ t. x ∷ t) (take-all n xs (omega arith))

  pub append-take : (n : ℕ) (xs : List A) → take n xs ++ drop n xs ≡ xs
  append-take zero xs = refl
  append-take (suc n) [] = refl
  append-take (suc n) (x ∷ xs) = ap (λ t. x ∷ t) (append-take n xs)

  pub append_assoc : (xs ys zs : List A) → (xs ++ ys) ++ zs ≡ xs ++ (ys ++ zs)
  append_assoc [] ys zs = refl
  append_assoc (x ∷ xs) ys zs = ap (λ t. x ∷ t) (append_assoc xs ys zs)

  pub append_nil : (xs : List A) → xs ++ [] ≡ xs
  append_nil [] = refl
  append_nil (x ∷ xs) = ap (λ t. x ∷ t) (append_nil xs)

  -- The first element that is left.
  pub take-drop :
      (n i : ℕ) (xs : List A) (d : A)
      → i < length xs
      → take (suc n) (drop i xs) ≡ get_or xs i d ∷ take n (drop (i + 1) xs)
  take-drop n i [] d h = absurd (omega arith)
  take-drop n zero (x ∷ xs) d h = refl
  take-drop n (suc i) (x ∷ xs) d h =
      let next : suc i + 1 ≡ suc (i + 1) = omega arith in rw next (take-drop n i xs d (omega arith))

  -- A write behind what is taken, and one before what is left.
  pub take-set_next :
      (n : ℕ) (xs : List A) (v : A)
      → n < length xs
      → take (n + 1) (set xs n v) ≡ take n xs ++ v ∷ []
  take-set_next n [] v h = absurd (omega arith)
  take-set_next zero (x ∷ xs) v h = refl
  take-set_next (suc n) (x ∷ xs) v h =
      let next : suc n + 1 ≡ suc (n + 1) = omega arith in
      rw next (ap (λ t. x ∷ t) (take-set_next n xs v (omega arith)))

  pub drop-set_before : (n : ℕ) (xs : List A) (v : A) → drop (n + 1) (set xs n v) ≡ drop (n + 1) xs
  drop-set_before n [] v = refl
  drop-set_before zero (x ∷ xs) v = refl
  drop-set_before (suc n) (x ∷ xs) v =
      let next : suc n + 1 ≡ suc (n + 1) = omega arith in rw next (drop-set_before n xs v)

  pub count_if-append :
      (p : A → Bool) (xs ys : List A) → count_if p (xs ++ ys) ≡ count_if p xs + count_if p ys
  count_if-append p [] ys = omega arith
  count_if-append p (x ∷ xs) ys = ground (arith, count_if-append p xs ys)

-- Adding to a list of at most `k` elements, at the cost of the first where it is full.
abbrev pub push_within {ℓ} : {A : Type ℓ} → ℕ → List A → A → List A
push_within k xs x = if ltb (length xs) k then xs ++ x ∷ [] else drop 1 xs ++ x ∷ []

-- The last `k` of a list.
abbrev pub last_of {ℓ} : {A : Type ℓ} → ℕ → List A → List A
last_of k xs = drop (length xs - k) xs

pub push_within-last_of {ℓ} :
    {A : Type ℓ} (k : ℕ) (xs : List A) (x : A)
    → 0 < k
    → push_within k (last_of k xs) x ≡ last_of k (xs ++ x ∷ [])
push_within-last_of k xs x some_room =
    let n = length-append xs (x ∷ []) in
    let l = length-drop (length xs - k) xs in
    elim (Bool-cases (ltb (length xs) k)) [
      | inl room ↦
          let now : length xs - k ≡ 0 = ground arith in
          let then' : length (xs ++ x ∷ []) - k ≡ 0 = ground (arith, n) in
          rw (now, then', room) refl
      | inr full ↦
          let then' : length (xs ++ x ∷ []) - k ≡ suc (length xs - k) = ground (arith, n) in
          let still : ltb (length (last_of k xs)) k ≡ false = ground (arith, l) in
          rw (still, then')
            (ap (λ t. t ++ x ∷ []) (drop_one (length xs - k) xs)
              ∙ sym (drop-append (suc (length xs - k)) xs (x ∷ []) (ground (arith, full))))
    ]
