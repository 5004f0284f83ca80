-- ===== src/Protocol/Queue/Order.antt =====
-- The abstract queue that DaliCommandQueue implements: requests in order of service. An arriving
-- request goes behind those of its own or a more urgent priority.
use savantix_dali_edge_contr.Prelude.{
  ℕ, zero, suc, ◌-◌, ◌≤◌, ◌<◌, ◌≡◌, refl, List, [], ◌∷◌, ◌++◌, Option, none, some, arith, ltb, leb,
  ◌==◌, if◌then◌else◌, length, get_elem?, Bool-cases, inl, inr, ap,
}
use mathlib.Core.List.{append-nil}
use savantix_dali_edge_contr.Protocol.Queue.{DaliRequest, QueueResult, level, capacity}

unfoldable pub insert_stable : DaliRequest → List DaliRequest → List DaliRequest
insert_stable r [] = r ∷ []
insert_stable r (x ∷ xs) = if leb (level x) (level r) then x ∷ insert_stable r xs else r ∷ x ∷ xs

-- How many requests at the front are served before a new one of priority `p`.
unfoldable pub rank : ℕ → List DaliRequest → ℕ
rank p [] = 0
rank p (x ∷ xs) = if leb (level x) p then suc (rank p xs) else 0

unfoldable pub offer : List DaliRequest → DaliRequest → QueueResult × List DaliRequest
offer xs r =
    if length xs == capacity then (QueueResult.full, xs) else (QueueResult.ok, insert_stable r xs)

unfoldable pub serve : List DaliRequest → Option DaliRequest × List DaliRequest
serve [] = (none, [])
serve (x ∷ xs) = (some x, xs)

-- The requests of priority `p`, in order of service.
abbrev pub of_level : ℕ → List DaliRequest → List DaliRequest
of_level p [] = []
of_level p (x ∷ xs) = if level x == p then x ∷ of_level p xs else of_level p xs

-- No request stands before a more urgent one.
abbrev pub AtLeast : ℕ → List DaliRequest → Type 0
AtLeast p [] = Unit {0}
AtLeast p (x ∷ xs) = (p ≤ level x) × AtLeast (level x) xs

abbrev pub IsSorted : List DaliRequest → Type 0
IsSorted xs = AtLeast 0 xs

pub length-insert_stable :
    (r : DaliRequest) (xs : List DaliRequest) → length (insert_stable r xs) ≡ suc (length xs)
unfolding insert_stable
length-insert_stable r [] = refl
length-insert_stable r (x ∷ xs) = ground (arith, length-insert_stable r xs)

pub rank-le : (p : ℕ) (xs : List DaliRequest) → rank p xs ≤ length xs
unfolding rank
rank-le p [] = omega arith
rank-le p (x ∷ xs) = ground (arith, rank-le p xs)

insert_at : ℕ → DaliRequest → List DaliRequest → List DaliRequest
insert_at zero r xs = r ∷ xs
insert_at (suc k) r [] = r ∷ []
insert_at (suc k) r (x ∷ xs) = x ∷ insert_at k r xs

get_elem?-insert_at :
    (k : ℕ) (r : DaliRequest) (xs : List DaliRequest) (j : ℕ)
    → k ≤ length xs
    → get_elem? (insert_at k r xs) j
      ≡ (if ltb j k then get_elem? xs j else if j == k then some r else get_elem? xs (j - 1))
unfolding insert_at
get_elem?-insert_at zero r xs zero h = refl
get_elem?-insert_at zero r xs (suc j) h = ground arith
get_elem?-insert_at (suc k) r [] j h = absurd (omega arith)
get_elem?-insert_at (suc k) r (x ∷ xs) zero h = ground arith
get_elem?-insert_at (suc k) r (x ∷ xs) (suc zero) h = ground (arith, get_elem?-insert_at k r xs 0)
get_elem?-insert_at (suc k) r (x ∷ xs) (suc (suc j)) h =
    ground (arith, get_elem?-insert_at k r xs (suc j))

insert_stable-at_rank :
    (r : DaliRequest) (xs : List DaliRequest)
    → insert_stable r xs ≡ insert_at (rank (level r) xs) r xs
unfolding insert_stable rank insert_at
insert_stable-at_rank r [] = refl
insert_stable-at_rank r (x ∷ xs) = elim (Bool-cases (leb (level x) (level r))) [
  | inl e ↦ rw e (ap (λ l. x ∷ l) (insert_stable-at_rank r xs))
  | inr e ↦ rw e
]

-- The new request stands at its rank, and those behind it move by one.
pub get_elem?-insert_stable :
    (r : DaliRequest) (xs : List DaliRequest) (j : ℕ)
    → let k = rank (level r) xs in
      get_elem? (insert_stable r xs) j
      ≡ (if ltb j k then get_elem? xs j else if j == k then some r else get_elem? xs (j - 1))
get_elem?-insert_stable r xs j =
    rw (insert_stable-at_rank r xs)
      (get_elem?-insert_at (rank (level r) xs) r xs j (rank-le (level r) xs))

insert_stable-AtLeast :
    (r : DaliRequest) (p : ℕ) (xs : List DaliRequest)
    → p ≤ level r
    → AtLeast p xs
    → AtLeast p (insert_stable r xs)
unfolding insert_stable
insert_stable-AtLeast r p [] h s = (h, tt)
insert_stable-AtLeast r p (x ∷ xs) h s = ground (arith, insert_stable-AtLeast r (level x) xs)

pub insert_stable-IsSorted :
    (r : DaliRequest) (xs : List DaliRequest) → IsSorted xs → IsSorted (insert_stable r xs)
insert_stable-IsSorted r xs s = insert_stable-AtLeast r 0 xs (omega arith) s

of_level-above : (p q : ℕ) (xs : List DaliRequest) → q < p → AtLeast p xs → of_level q xs ≡ []
of_level-above p q [] h s = refl
of_level-above p q (x ∷ xs) h s = ground (arith, of_level-above (level x) q xs)

of_level-insert_from :
    (r : DaliRequest) (p low : ℕ) (xs : List DaliRequest)
    → AtLeast low xs
    → of_level p (insert_stable r xs) ≡ of_level p xs ++ (if level r == p then r ∷ [] else [])
unfolding insert_stable
of_level-insert_from r p low [] s = ground arith
of_level-insert_from r p low (x ∷ xs) s = ground (
  arith,
  of_level-insert_from r p (level x) xs,
  of_level-above (level x) p xs,
  append-nil (of_level p xs),
  append-nil (x ∷ of_level p xs),
)

-- Requests of one priority keep their order of arrival, and those of another are not touched.
pub of_level-insert_stable :
    (r : DaliRequest) (p : ℕ) (xs : List DaliRequest)
    → IsSorted xs
    → of_level p (insert_stable r xs) ≡ of_level p xs ++ (if level r == p then r ∷ [] else [])
of_level-insert_stable r p xs s = of_level-insert_from r p 0 xs s
