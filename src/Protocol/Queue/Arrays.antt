-- ===== src/Protocol/Queue/Arrays.antt =====
-- What the loops of DaliCommandQueue do to the array, index by index.
use savantix_dali_edge_contr.Prelude.{
  ℕ, zero, suc, ◌+◌, ◌-◌, ◌≤◌, ◌<◌, ◌≡◌, refl, List, arith, ltb, leb, ◌&&◌, if◌then◌else◌, length,
  get_elem?, get_or, set, length-set, get_elem?-set, get_elem?-eq-get_or,
}
use savantix_dali_edge_contr.Protocol.Queue.{DaliRequest, default_request, shift_up, shift_down}

pub length-shift_up :
    (n index : ℕ) (items : List DaliRequest) → length (shift_up n index items) ≡ length items
unfolding shift_up
length-shift_up zero index items = refl
length-shift_up (suc n) index items = omega (
  arith,
  length-shift_up n (index - 1) (set items index (get_or items (index - 1) default_request)),
  length-set items index (get_or items (index - 1) default_request),
)

pub length-shift_down :
    (n index : ℕ) (items : List DaliRequest) → length (shift_down n index items) ≡ length items
unfolding shift_down
length-shift_down zero index items = refl
length-shift_down (suc n) index items = omega (
  arith,
  length-shift_down n (index + 1) (set items (index - 1) (get_or items index default_request)),
  length-set items (index - 1) (get_or items index default_request),
)

-- The entries above the insertion point move up by one.
pub get_elem?-shift_up :
    (n insertion index : ℕ) (items : List DaliRequest) (j : ℕ)
    → index ≡ n + insertion
    → index < length items
    → get_elem? (shift_up n index items) j
      ≡ (if ltb insertion j && leb j index then get_elem? items (j - 1) else get_elem? items j)
unfolding shift_up
get_elem?-shift_up zero insertion index items j e h = ground arith
get_elem?-shift_up (suc n) insertion index items j e h =
    let v = get_or items (index - 1) default_request in
    ground (
      arith,
      get_elem?-shift_up n insertion (index - 1) (set items index v) j,
      length-set items index v,
      get_elem?-set items index j v,
      get_elem?-set items index (j - 1) v,
      get_elem?-eq-get_or items (index - 1) default_request,
    )

-- The entries from `index` on move down by one.
pub get_elem?-shift_down :
    (n index : ℕ) (items : List DaliRequest) (j : ℕ)
    → 0 < index
    → n + index ≤ length items
    → get_elem? (shift_down n index items) j ≡ (
        if leb index (j + 1) && ltb (j + 1) (index + n)
        then get_elem? items (j + 1)
        else get_elem? items j)
unfolding shift_down
get_elem?-shift_down zero index items j p h = ground arith
get_elem?-shift_down (suc n) index items j p h =
    let v = get_or items index default_request in
    ground (
      arith,
      get_elem?-shift_down n (index + 1) (set items (index - 1) v) j,
      length-set items (index - 1) v,
      get_elem?-set items (index - 1) j v,
      get_elem?-set items (index - 1) (j + 1) v,
      get_elem?-eq-get_or items index default_request,
    )
