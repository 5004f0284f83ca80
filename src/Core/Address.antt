-- ===== src/Core/Address.antt =====
-- ShortAddress and GroupAddress of components/dali_core/include/dali/core/types.h.
use savantix_dali_edge_contr.Prelude.{ℕ, ◌≤◌, Bool, Option, none, some, leb, ◌==◌, if◌then◌else◌}

pub record ShortAddress : Type 0 where
  pub value : ℕ

-- The constructor is private in the source: an address comes from `short_address` alone.
unfoldable pub short_address : ℕ → Option ShortAddress
short_address value = if leb value 63 then some (record { value = value }) else none

abbrev pub short_eq : ShortAddress → ShortAddress → Bool
short_eq lhs rhs = lhs.value == rhs.value

pub record GroupAddress : Type 0 where
  pub value : ℕ

unfoldable pub group_address : ℕ → Option GroupAddress
group_address value = if leb value 15 then some (record { value = value }) else none

abbrev pub group_eq : GroupAddress → GroupAddress → Bool
group_eq lhs rhs = lhs.value == rhs.value

abbrev pub IsShort : ShortAddress → Type 0
IsShort a = a.value ≤ 63

abbrev pub IsGroup : GroupAddress → Type 0
IsGroup a = a.value ≤ 15
