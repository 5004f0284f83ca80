-- ===== src/Prelude/Lists.antt =====
-- Arrays as lists with native indices, under the library's names. A write past the end changes
-- nothing, and `get_or` gives its default there; the components prove their accesses in range.
use Prim.Native.Nat.{ℕ, zero, suc, ◌+◌, ◌<◌, ◌≤◌, min}
use mathlib.Core.Path.{◌≡◌, refl, ap, ap₂}
use mathlib.Core.Logic.{◌≢◌}
use mathlib.Core.Bool.{◌&&◌}
use mathlib.Core.List.{List, [], ◌∷◌, ◌++◌}
use mathlib.Core.Option.{Option, none, some}
use native.Mathlib.Omega.{arith}
use savantix_dali_edge_contr.Prelude.Tests.{ltb, ◌==◌, if◌then◌else◌}

module _ {ℓ} {A : Type ℓ} where
  abbrev pub length : List A → ℕ
  length [] = 0
  length (_ ∷ xs) = suc (length xs)

  abbrev pub get_elem? : List A → ℕ → Option A
  get_elem? [] _ = none
  get_elem? (x ∷ _) zero = some x
  get_elem? (_ ∷ xs) (suc i) = get_elem? xs i

  abbrev pub get_or : List A → ℕ → A → A
  get_or [] _ d = d
  get_or (x ∷ _) zero _ = x
  get_or (_ ∷ xs) (suc i) d = get_or xs i d

  abbrev pub set : List A → ℕ → A → List A
  set [] _ _ = []
  set (_ ∷ xs) zero v = v ∷ xs
  set (x ∷ xs) (suc i) v = x ∷ set xs i v

  abbrev pub take : ℕ → List A → List A
  take zero _ = []
  take (suc n) [] = []
  take (suc n) (x ∷ xs) = x ∷ take n xs

  abbrev pub drop : ℕ → List A → List A
  drop zero xs = xs
  drop (suc n) [] = []
  drop (suc n) (x ∷ xs) = drop n xs

  abbrev pub replicate : ℕ → A → List A
  replicate zero a = []
  replicate (suc n) a = a ∷ replicate n a

module _ {ℓ} {A : Type ℓ} where
  pub length-append : (xs ys : List A) → length (xs ++ ys) ≡ length xs + length ys
  length-append [] ys = omega arith
  length-append (x ∷ xs) ys = omega (arith, length-append xs ys)

  pub length-set : (xs : List A) (i : ℕ) (v : A) → length (set xs i v) ≡ length xs
  length-set [] i v = refl
  length-set (x ∷ xs) zero v = refl
  length-set (x ∷ xs) (suc i) v = ap suc (length-set xs i v)

  pub length-take : (n : ℕ) (xs : List A) → length (take n xs) ≡ min n (length xs)
  length-take zero xs = omega arith
  length-take (suc n) [] = omega arith
  length-take (suc n) (x ∷ xs) = omega (arith, length-take n xs)

  pub length-replicate : (n : ℕ) (a : A) → length (replicate n a) ≡ n
  length-replicate zero a = refl
  length-replicate (suc n) a = ap suc (length-replicate n a)

  -- Two arrays that agree at every index are one.
  pub ext : (xs ys : List A) → ((i : ℕ) → get_elem? xs i ≡ get_elem? ys i) → xs ≡ ys
  ext [] [] h = refl
  ext [] (y ∷ ys) h = cc (h 0)
  ext (x ∷ xs) [] h = cc (h 0)
  ext (x ∷ xs) (y ∷ ys) h = ap₂ ◌∷◌ (cc (h 0)) (ext xs ys (λ i. h (suc i)))

  pub get_elem?-eq-get_or :
      (xs : List A) (i : ℕ) (d : A) → i < length xs → get_elem? xs i ≡ some (get_or xs i d)
  get_elem?-eq-get_or [] i d h = absurd (omega arith)
  get_elem?-eq-get_or (x ∷ xs) zero d h = refl
  get_elem?-eq-get_or (x ∷ xs) (suc i) d h = get_elem?-eq-get_or xs i d (omega arith)

  pub get_elem?-past : (xs : List A) (i : ℕ) → length xs ≤ i → get_elem? xs i ≡ none
  get_elem?-past [] i h = refl
  get_elem?-past (x ∷ xs) zero h = absurd (omega arith)
  get_elem?-past (x ∷ xs) (suc i) h = get_elem?-past xs i (omega arith)

  pub get_elem?-set :
      (xs : List A) (i j : ℕ) (v : A)
      → get_elem? (set xs i v) j ≡ (if i == j && ltb j (length xs) then some v else get_elem? xs j)
  get_elem?-set [] i j v = ground arith
  get_elem?-set (x ∷ xs) zero zero v = ground arith
  get_elem?-set (x ∷ xs) zero (suc j) v = ground arith
  get_elem?-set (x ∷ xs) (suc i) zero v = ground arith
  get_elem?-set (x ∷ xs) (suc i) (suc j) v = ground (arith, get_elem?-set xs i j v)

  pub get_elem?-take :
      (n : ℕ) (xs : List A) (j : ℕ)
      → get_elem? (take n xs) j ≡ (if ltb j n then get_elem? xs j else none)
  get_elem?-take zero xs j = ground arith
  get_elem?-take (suc n) [] j = ground arith
  get_elem?-take (suc n) (x ∷ xs) zero = ground arith
  get_elem?-take (suc n) (x ∷ xs) (suc j) = ground (arith, get_elem?-take n xs j)

  pub get_or-set_self :
      (xs : List A) (i : ℕ) (v d : A) → i < length xs → get_or (set xs i v) i d ≡ v
  get_or-set_self [] i v d h = absurd (omega arith)
  get_or-set_self (x ∷ xs) zero v d h = refl
  get_or-set_self (x ∷ xs) (suc i) v d h = get_or-set_self xs i v d (omega arith)

  pub get_or-set_ne :
      (xs : List A) {i j : ℕ} (v d : A) → i ≢ j → get_or (set xs i v) j d ≡ get_or xs j d
  get_or-set_ne [] v d h = refl
  get_or-set_ne (x ∷ xs) {i = zero} {j = zero} v d h = absurd (h refl)
  get_or-set_ne (x ∷ xs) {i = zero} {j = suc j} v d h = refl
  get_or-set_ne (x ∷ xs) {i = suc i} {j = zero} v d h = refl
  get_or-set_ne (x ∷ xs) {i = suc i} {j = suc j} v d h = get_or-set_ne xs v d (λ e. h (ap suc e))

  pub get_or-replicate : (n i : ℕ) (a : A) → get_or (replicate n a) i a ≡ a
  get_or-replicate zero i a = refl
  get_or-replicate (suc n) zero a = refl
  get_or-replicate (suc n) (suc i) a = get_or-replicate n i a

-- A predicate of every element.
abbrev pub All {ℓ κ} : {A : Type ℓ} → (A → Type κ) → List A → Type κ
All P [] = Unit
All P (x ∷ xs) = P x × All P xs

pub All-set {ℓ κ} :
    {A : Type ℓ} (P : A → Type κ) (xs : List A) (i : ℕ) (v : A)
    → All P xs
    → P v
    → All P (set xs i v)
All-set P [] i v h p = tt
All-set P (x ∷ xs) zero v h p = (p, h.1)
All-set P (x ∷ xs) (suc i) v h p = (h.0, All-set P xs i v h.1 p)

pub All-get_or {ℓ κ} :
    {A : Type ℓ} (P : A → Type κ) (xs : List A) (i : ℕ) (d : A) → All P xs → P d → P (get_or xs i d)
All-get_or P [] i d h p = p
All-get_or P (x ∷ xs) zero d h p = h.0
All-get_or P (x ∷ xs) (suc i) d h p = All-get_or P xs i d h.1 p
