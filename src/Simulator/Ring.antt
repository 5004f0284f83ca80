-- ===== src/Simulator/Ring.antt =====
-- The scripted responses of the simulated PHY as a queue: the ring of 32 loses and reorders nothing.
use savantix_dali_edge_contr.Prelude.{
  ℕ, zero, suc, ◌+◌, ◌-◌, ◌%◌, ◌≤◌, ◌<◌, ◌≡◌, ◌≢◌, refl, true, List, [], ◌∷◌, ◌++◌, arith, ltb,
  ◌==◌, ap, ap₂, if◌then◌else◌, length, get_or, set, length-set, get_or-set_self, get_or-set_ne,
  length-replicate,
}
use savantix_dali_edge_contr.Phy.{PhyResult, is_ok}
use savantix_dali_edge_contr.Simulator.{
  SimulatedResponse, SimulatedDaliPhy, default_response, response_capacity, new_phy, receive,
  enqueue_response,
}

-- The `n` responses from index `h` on, going round at the end of the array.
abbrev pub window : List SimulatedResponse → ℕ → ℕ → List SimulatedResponse
window rs h zero = []
window rs h (suc n) = get_or rs h default_response ∷ window rs ((h + 1) % response_capacity) n

abbrev pub pending : SimulatedDaliPhy → List SimulatedResponse
pending p = window p.responses p.response_head p.response_count

pub record IsValid (p : SimulatedDaliPhy) : Type 0 where
  pub sized : length p.responses ≡ response_capacity
  pub head_in : p.response_head < response_capacity
  pub fits : p.response_count ≤ response_capacity

pub new_phy-IsValid : IsValid new_phy
new_phy-IsValid = record {
  sized = length-replicate response_capacity default_response;
  head_in = omega arith;
  fits = omega arith;
}

pub enqueue_response-IsValid :
    (p : SimulatedDaliPhy) (r : SimulatedResponse) → IsValid p → IsValid (enqueue_response p r).1
unfolding enqueue_response
enqueue_response-IsValid p r v =
    ground
      (arith, length-set p.responses ((p.response_head + p.response_count) % response_capacity) r)

pub receive-IsValid :
    (p : SimulatedDaliPhy) (frame timeout : ℕ) → IsValid p → IsValid (receive p frame timeout).2
unfolding receive
receive-IsValid p frame timeout v = ground arith

length-window : (rs : List SimulatedResponse) (h n : ℕ) → length (window rs h n) ≡ n
length-window rs h zero = refl
length-window rs h (suc n) = ap suc (length-window rs ((h + 1) % response_capacity) n)

-- Writing just past a window adds that response at its end.
window-set :
    (rs : List SimulatedResponse) (r : SimulatedResponse) (n h i : ℕ)
    → length rs ≡ response_capacity
    → h < response_capacity
    → n < response_capacity
    → i ≡ (h + n) % response_capacity
    → window (set rs i r) h (suc n) ≡ window rs h n ++ r ∷ []
window-set rs r zero h i s hh hn e =
    let e' : i ≡ h = omega arith in
    rw e' (ap (λ x. x ∷ []) (get_or-set_self rs h r default_response (omega arith)))
window-set rs r (suc n) h i s hh hn e =
    ap₂ ◌∷◌ (get_or-set_ne rs {i = i} {j = h} r default_response (omega arith)) (
      window-set rs r n ((h + 1) % response_capacity) i s (omega arith) (omega arith) (omega arith))

window-pos :
    (rs : List SimulatedResponse) (h n : ℕ)
    → n ≢ 0
    → window rs h n ≡ get_or rs h default_response ∷ window rs ((h + 1) % response_capacity) (n - 1)
window-pos rs h zero ne = absurd (ne refl)
window-pos rs h (suc n) ne = ap (λ k. window rs h (suc k)) (omega arith)

-- The abstract script: what a call does to the list of pending responses.
unfoldable pub offer :
    List SimulatedResponse → SimulatedResponse → PhyResult × List SimulatedResponse
offer rs r =
    if length rs == response_capacity then (PhyResult.busy, rs) else (PhyResult.ok, rs ++ r ∷ [])

-- The oldest response is played if its delay is within the timeout, and its byte is written only if
-- its result is `ok`; one that comes too late stays.
unfoldable pub play : List SimulatedResponse → ℕ → ℕ → PhyResult × ℕ × List SimulatedResponse
play [] frame timeout = (PhyResult.timeout, frame, [])
play (r ∷ rs) frame timeout =
    if ltb timeout r.delay_ms
    then (PhyResult.timeout, frame, r ∷ rs)
    else (r.result, if is_ok r.result then r.value else frame, rs)

-- `enqueueResponse` is `offer` on the pending responses.
pub enqueue_response_refines :
    (p : SimulatedDaliPhy) (r : SimulatedResponse)
    → IsValid p
    → let (s, p') = enqueue_response p r in ((s, pending p') ≡ offer (pending p) r) × IsValid p'
unfolding enqueue_response offer
enqueue_response_refines p r v = (
  ground (
    arith,
    length-window p.responses p.response_head p.response_count,
    window-set p.responses r p.response_count p.response_head
        ((p.response_head + p.response_count) % response_capacity),
  ),
  enqueue_response-IsValid p r v,
)

-- A PHY in working order.
abbrev pub Works : SimulatedDaliPhy → Type 0
Works p =
    (p.health.initialised ≡ true)
    × (p.health.bus_powered ≡ true)
    × (p.health.transceiver_healthy ≡ true)

-- On a PHY in working order `receive` is `play` on the pending responses.
pub receive_refines :
    (p : SimulatedDaliPhy) (frame timeout : ℕ)
    → IsValid p
    → Works p
    → let (result, byte, p') = receive p frame timeout in
      ((result, byte, pending p') ≡ play (pending p) frame timeout) × IsValid p'
unfolding receive play
receive_refines p frame timeout v w = (
  ground (
    arith,
    window-pos p.responses p.response_head p.response_count,
    length-window p.responses p.response_head p.response_count,
  ),
  receive-IsValid p frame timeout v,
)
