-- ===== src/Scheduler.antt =====
-- DaliScheduler, of components/dali_scheduler/include/dali/scheduler/dali_scheduler.h and
-- dali_scheduler.cpp.
use savantix_dali_edge_contr.Prelude.{
  ℕ, zero, suc, ◌+◌, ◌-◌, ◌%◌, Bool, true, false, not, ◌&&◌, ◌||◌, List, [], ◌∷◌, Option, none,
  some, ltb, leb, if◌then◌else◌, get_or, set, replicate, u8, u64, FloatOps,
}
pub mod Rounds
pub mod Polling
pub mod Fairness
pub mod Turns
pub mod Completion
pub mod Calls

pub data PollKind : Type 0 where
  status presence electrical temperature lifetime identity count : PollKind

abbrev pub kind_code : PollKind → ℕ
kind_code PollKind.status = 0
kind_code PollKind.presence = 1
kind_code PollKind.electrical = 2
kind_code PollKind.temperature = 3
kind_code PollKind.lifetime = 4
kind_code PollKind.identity = 5
kind_code PollKind.count = 6

-- The kinds with an index below that of `count`, in order.
abbrev pub kinds : List PollKind
kinds =
    PollKind.status ∷ PollKind.presence ∷ PollKind.electrical ∷ PollKind.temperature
    ∷ PollKind.lifetime ∷ PollKind.identity ∷ []

pub data PollPriority : Type 0 where
  critical high normal low : PollPriority

pub record LightPollContext : Type 0 where
  pub commanded_on : Bool
  pub warning_active : Bool
  pub recent_fault : Bool
  pub observation_started_ms : ℕ

pub record PollRequest : Type 0 where
  pub address : ℕ
  pub kind : PollKind
  pub priority : PollPriority
  pub estimated_duration_ms : ℕ

pub record Slot : Type 0 where
  pub configured : Bool
  pub context : LightPollContext
  pub due_ms : List ℕ

pub record DaliScheduler : Type 0 where
  pub slots : List Slot
  pub round_robin_cursor : ℕ

abbrev pub maximum_lights : ℕ
maximum_lights = 64

abbrev pub default_slot : Slot
default_slot = record {
  configured = false;
  context = record {
    commanded_on = false;
    warning_active = false;
    recent_fault = false;
    observation_started_ms = 0;
  };
  due_ms = replicate 6 0;
}

abbrev pub new_scheduler : DaliScheduler
new_scheduler = record { slots = replicate maximum_lights default_slot; round_robin_cursor = 0 }

abbrev pub light_at : DaliScheduler → ℕ → Slot
light_at s address = get_or s.slots address default_slot

abbrev pub due_at : Slot → PollKind → ℕ
due_at slot kind = get_or slot.due_ms (kind_code kind) 0

-- The array that `configure` leaves in `dueMs`.
abbrev pub first_due : ℕ → List ℕ
first_due now_ms =
    let filled = replicate 6 (u64 (now_ms + 60000)) in
    let with_status = set filled (kind_code PollKind.status) now_ms in
    let with_presence = set with_status (kind_code PollKind.presence) (u64 (now_ms + 30000)) in
    let with_lifetime = set with_presence (kind_code PollKind.lifetime) (u64 (now_ms + 21600000)) in
    set with_lifetime (kind_code PollKind.identity) (u64 (now_ms + 86400000))

unfoldable pub configure : DaliScheduler → ℕ → LightPollContext → ℕ → DaliScheduler
configure s address context now_ms = if leb maximum_lights address then s else record s {
  slots =
      set s.slots address
        (record { configured = true; context = context; due_ms = first_due now_ms });
}

abbrev pub is_alert : LightPollContext → Bool
is_alert context = context.warning_active || context.recent_fault

abbrev pub priority_for : PollKind → LightPollContext → PollPriority
priority_for PollKind.status context =
    if is_alert context then PollPriority.critical else PollPriority.high
priority_for PollKind.presence context = PollPriority.high
priority_for PollKind.identity context = PollPriority.low
priority_for PollKind.lifetime context = PollPriority.low
priority_for _ context = PollPriority.normal

abbrev pub elapsed : LightPollContext → ℕ → ℕ
elapsed context now_ms =
    if leb context.observation_started_ms now_ms then now_ms - context.observation_started_ms else 0

abbrev pub idle_interval : LightPollContext → ℕ
idle_interval context = if context.commanded_on then 5000 else 30000

unfoldable pub interval_for : PollKind → LightPollContext → ℕ → ℕ
interval_for PollKind.status context now_ms =
    if is_alert context
    then if ltb (elapsed context now_ms) 60000
      then 2000
      else if ltb (elapsed context now_ms) 360000
      then 5000
      else idle_interval context
    else idle_interval context
interval_for PollKind.presence context now_ms = 30000
interval_for PollKind.electrical context now_ms = if is_alert context then 10000 else 60000
interval_for PollKind.temperature context now_ms = if context.warning_active then 10000 else 60000
interval_for PollKind.lifetime context now_ms = 21600000
interval_for PollKind.identity context now_ms = 86400000
interval_for PollKind.count context now_ms = 0

abbrev pub poll_request : ℕ → PollKind → Slot → PollRequest
poll_request address kind slot = record {
  address = u8 address;
  kind = kind;
  priority = priority_for kind slot.context;
  estimated_duration_ms = 100;
}

abbrev pub is_critical : PollPriority → Bool
is_critical PollPriority.critical = true
is_critical _ = false

module _ {F : Type 0} (fl : FloatOps F) where
  abbrev pub admit : PollRequest → F → F → F → Bool
  admit request utilisation normal_limit diagnostic_limit =
      let limit = if is_critical request.priority then diagnostic_limit else normal_limit in
      fl.le (fl.lit 0 0) utilisation
      && (fl.lt utilisation limit && ltb 0 request.estimated_duration_ms)

module _ {F : Type 0} (fl : FloatOps F) (now_ms : ℕ)
    (utilisation normal_limit diagnostic_limit : F) where
  -- The inner loop of `next`, over the kinds that are left.
  abbrev pub poll_kinds : ℕ → Slot → List PollKind → Option PollRequest
  poll_kinds address slot [] = none
  poll_kinds address slot (kind ∷ rest) =
      let later = poll_kinds address slot rest in
      let request = poll_request address kind slot in
      if ltb now_ms (due_at slot kind)
      then later
      else if not (admit fl request utilisation normal_limit diagnostic_limit)
      then later
      else some request

  -- What one round of the outer loop returns.
  unfoldable pub poll_light : DaliScheduler → ℕ → Option PollRequest
  poll_light s address =
      let slot = light_at s address in
      if slot.configured then poll_kinds address slot kinds else none

  -- The outer loop with `n` offsets left: the address at which it returns, and the request.
  abbrev pub poll_lights : DaliScheduler → ℕ → ℕ → Option (ℕ × PollRequest)
  poll_lights s zero offset = none
  poll_lights s (suc n) offset =
      let later = poll_lights s n (offset + 1) in
      let address = (s.round_robin_cursor + offset) % maximum_lights in
      elim (poll_light s address) [ none ↦ later | some request ↦ some (address, request) ]

  unfoldable pub next : DaliScheduler → Option PollRequest × DaliScheduler
  next s = elim (poll_lights s maximum_lights 0) [
    | none ↦ (none, s)
    | some (address, request) ↦
        (some request, record s { round_robin_cursor = u8 ((address + 1) % maximum_lights) })
  ]

abbrev pub is_count : PollKind → Bool
is_count PollKind.count = true
is_count _ = false

unfoldable pub complete : DaliScheduler → PollRequest → ℕ → DaliScheduler
complete s request now_ms =
    let slot = light_at s request.address in
    let due = u64 (now_ms + interval_for request.kind slot.context now_ms) in
    if leb maximum_lights request.address || is_count request.kind
    then s
    else if not slot.configured
    then s
    else record s {
      slots =
          set s.slots request.address
            (record slot { due_ms = set slot.due_ms (kind_code request.kind) due });
    }
