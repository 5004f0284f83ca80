-- ===== src/Prelude/Search.antt =====
-- Loops over an array that stop at the first element which passes a test, and loops that count such
-- elements.
use Prim.Native.Nat.{ℕ, zero, suc, ◌+◌, ◌<◌, ◌≤◌}
use mathlib.Core.Path.{◌≡◌, refl, ap, subst}
use mathlib.Core.Logic.{inl, inr}
use mathlib.Core.Bool.{Bool, true, false, not}
use mathlib.Core.List.{List, [], ◌∷◌}
use mathlib.Core.Option.{Option, none, some}
use native.Mathlib.Omega.{arith}
use savantix_dali_edge_contr.Prelude.Tests.{Bool-cases, if◌then◌else◌}
use savantix_dali_edge_contr.Prelude.Lists.{length, get_or, set}

abbrev pub shift : Option ℕ → Option ℕ
shift none = none
shift (some i) = some (suc i)

shift-some : (o : Option ℕ) (i : ℕ) → shift o ≡ some i → (j : ℕ) × (o ≡ some j) × (i ≡ suc j)
shift-some none i e = cc e
shift-some (some j) i e = (j, refl, cc e)

shift-none : (o : Option ℕ) → shift o ≡ none → o ≡ none
shift-none none e = refl
shift-none (some j) e = cc e

module _ {ℓ} {A : Type ℓ} where
  abbrev pub find_index : (A → Bool) → List A → Option ℕ
  find_index p [] = none
  find_index p (x ∷ xs) = if p x then some 0 else shift (find_index p xs)

  abbrev pub count_if : (A → Bool) → List A → ℕ
  count_if p [] = 0
  count_if p (x ∷ xs) = if p x then suc (count_if p xs) else count_if p xs

  abbrev pub keep_if : (A → Bool) → List A → List A
  keep_if p [] = []
  keep_if p (x ∷ xs) = if p x then x ∷ keep_if p xs else keep_if p xs

  pub find_index-some :
      (p : A → Bool) (xs : List A) (i : ℕ) (d : A)
      → find_index p xs ≡ some i
      → (p (get_or xs i d) ≡ true) × (i < length xs)
  find_index-some p [] i d e = cc e
  find_index-some p (x ∷ xs) i d e = elim (Bool-cases (p x)) [
    | inl h ↦
        let first : some 0 ≡ some i = rw h at e in
        let zeroth : 0 ≡ i = cc first in
        subst (λ t. (p (get_or (x ∷ xs) t d) ≡ true) × (t < suc (length xs))) zeroth
          (h, omega arith)
    | inr h ↦
        let later : shift (find_index p xs) ≡ some i = rw h at e in
        let (j, f, same) = shift-some (find_index p xs) i later in
        let (holds, inside) = find_index-some p xs j d f in rw same (holds, omega arith)
  ]

  find_index-none_at :
      (p : A → Bool) (x : A) (xs : List A) (d : A) (j : ℕ)
      → p x ≡ false
      → ((i : ℕ) → p (get_or xs i d) ≡ false)
      → p (get_or (x ∷ xs) j d) ≡ false
  find_index-none_at p x xs d zero f h = f
  find_index-none_at p x xs d (suc j) f h = h j

  pub find_index-none :
      (p : A → Bool) (xs : List A) (d : A)
      → find_index p xs ≡ none
      → p d ≡ false
      → (j : ℕ) → p (get_or xs j d) ≡ false
  find_index-none p [] d e h j = h
  find_index-none p (x ∷ xs) d e h j = elim (Bool-cases (p x)) [
    | inl t ↦ cc (rw t at e)
    | inr f ↦ find_index-none_at p x xs d j f (find_index-none p xs d (shift-none _ (rw f at e)) h)
  ]

  pub count_if-set :
      (p : A → Bool) (xs : List A) (i : ℕ) (v d : A)
      → i < length xs
      → count_if p (set xs i v) + (if p (get_or xs i d) then 1 else 0)
        ≡ count_if p xs + (if p v then 1 else 0)
  count_if-set p [] i v d h = absurd (omega arith)
  count_if-set p (x ∷ xs) zero v d h = ground arith
  count_if-set p (x ∷ xs) (suc i) v d h = ground (arith, count_if-set p xs i v d)

  pub count_if-le : (p : A → Bool) (xs : List A) → count_if p xs ≤ length xs
  count_if-le p [] = omega arith
  count_if-le p (x ∷ xs) = ground (arith, count_if-le p xs)

  -- A search for an element that fails the test stops before the end unless all pass it.
  pub find_index-not-none :
      (p : A → Bool) (xs : List A)
      → find_index (λ x. not (p x)) xs ≡ none
      → count_if p xs ≡ length xs
  find_index-not-none p [] e = refl
  find_index-not-none p (x ∷ xs) e = elim (Bool-cases (p x)) [
    | inl t ↦
        let later : shift (find_index (λ x. not (p x)) xs) ≡ none = rw t at e in
        rw t (ap suc (find_index-not-none p xs (shift-none _ later)))
    | inr f ↦ cc (rw f at e)
  ]

  pub find_index-zero : (p : A → Bool) (xs : List A) → find_index p xs ≡ none → count_if p xs ≡ 0
  find_index-zero p [] e = refl
  find_index-zero p (x ∷ xs) e = elim (Bool-cases (p x)) [
    | inl t ↦ cc (rw t at e)
    | inr f ↦ rw f (find_index-zero p xs (shift-none _ (rw f at e)))
  ]
