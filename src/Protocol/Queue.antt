-- ===== src/Protocol/Queue.antt =====
-- components/dali_protocol/include/dali/protocol/dali_command_queue.h: a stable priority queue in an
-- array of 64 requests.
use savantix_dali_edge_contr.Prelude.{
  ℕ, zero, suc, ◌+◌, ◌-◌, Bool, true, List, Option, none, some, leb, ◌==◌, if◌then◌else◌, get_or,
  set, replicate,
}
use savantix_dali_edge_contr.Protocol.Frame.{ForwardFrame}
pub mod Arrays
pub mod Order
pub mod Refine
pub mod Service

pub data CommandPriority : Type 0 where
  critical high normal low : CommandPriority

abbrev pub priority_code : CommandPriority → ℕ
priority_code CommandPriority.critical = 0
priority_code CommandPriority.high = 1
priority_code CommandPriority.normal = 2
priority_code CommandPriority.low = 3

pub data QueueResult : Type 0 where
  ok full : QueueResult

pub record DaliRequest : Type 0 where
  pub frame : ForwardFrame
  pub expects_response : Bool
  pub timeout_ms : ℕ
  pub max_retries : ℕ
  pub priority : CommandPriority
  pub device_key : ℕ
  pub request_sequence : ℕ

-- The values that the member initialisers give.
abbrev pub default_request : DaliRequest
default_request = record {
  frame = record { raw = 0 };
  expects_response = true;
  timeout_ms = 20;
  max_retries = 3;
  priority = CommandPriority.normal;
  device_key = 0xff;
  request_sequence = 0;
}

abbrev pub level : DaliRequest → ℕ
level r = priority_code r.priority

abbrev pub capacity : ℕ
capacity = 64

pub record DaliCommandQueue : Type 0 where
  pub items : List DaliRequest
  pub count : ℕ

abbrev pub empty_queue : DaliCommandQueue
empty_queue = record { items = replicate capacity default_request; count = 0 }

-- `while (insertion < count_ && items_[insertion].priority <= requestedPriority) ++insertion;` with
-- `n` the rounds left, `count_ - insertion`.
unfoldable pub find_insertion : List DaliRequest → ℕ → ℕ → ℕ → ℕ
find_insertion items requested zero insertion = insertion
find_insertion items requested (suc n) insertion =
    let rest = find_insertion items requested n (insertion + 1) in
    if leb (level (get_or items insertion default_request)) requested then rest else insertion

-- `for (index = count_; index > insertion; --index) items_[index] = items_[index - 1];` with `n` the
-- rounds left, `index - insertion`.
unfoldable pub shift_up : ℕ → ℕ → List DaliRequest → List DaliRequest
shift_up zero index items = items
shift_up (suc n) index items =
    shift_up n (index - 1) (set items index (get_or items (index - 1) default_request))

unfoldable pub enqueue : DaliCommandQueue → DaliRequest → QueueResult × DaliCommandQueue
unfolding find_insertion shift_up
enqueue q request =
    if q.count == capacity
    then (QueueResult.full, q)
    else let insertion = find_insertion q.items (level request) q.count 0 in
      let shifted = shift_up (q.count - insertion) q.count q.items in
      (QueueResult.ok, record { items = set shifted insertion request; count = q.count + 1 })

-- `for (index = 1; index < count_; ++index) items_[index - 1] = items_[index];`
unfoldable pub shift_down : ℕ → ℕ → List DaliRequest → List DaliRequest
shift_down zero index items = items
shift_down (suc n) index items =
    shift_down n (index + 1) (set items (index - 1) (get_or items index default_request))

unfoldable pub pop : DaliCommandQueue → Option DaliRequest × DaliCommandQueue
unfolding shift_down
pop q = if q.count == 0 then (none, q) else (
  some (get_or q.items 0 default_request),
  record { items = shift_down (q.count - 1) 1 q.items; count = q.count - 1 },
)
