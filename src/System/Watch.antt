-- ===== src/System/Watch.antt =====
-- When SystemMonitor finds the tasks healthy.
use savantix_dali_edge_contr.Prelude.{
  ℕ, zero, suc, ◌+◌, ◌≤◌, ◌<◌, ◌≡◌, true, false, arith, get_or, subst,
}
use savantix_dali_edge_contr.System.{SystemMonitor, is_late, healthy_from, healthy}

healthy_from_each :
    (m : SystemMonitor) (now timeout n task k : ℕ)
    → healthy_from m now timeout n task ≡ true
    → k < n
    → is_late m now timeout (task + k) ≡ false
healthy_from_each m now timeout zero task k h lt = absurd (omega arith)
healthy_from_each m now timeout (suc n) task zero h lt =
    let here : task + 0 ≡ task = omega arith in rw here (ground arith)
healthy_from_each m now timeout (suc n) task (suc k) h lt =
    let there : task + suc k ≡ task + 1 + k = omega arith in
    rw there (healthy_from_each m now timeout n (task + 1) k (ground arith) (omega arith))

-- While the monitor finds the program healthy, every expected task has sent a heartbeat, and its last one
-- is at most the timeout ago.
pub healthy_each :
    (m : SystemMonitor) (now timeout k : ℕ)
    → healthy m now timeout ≡ true
    → k < m.expected_tasks
    → (get_or m.seen k false ≡ true)
      × (get_or m.heartbeats k 0 ≤ now)
      × (now ≤ get_or m.heartbeats k 0 + timeout)
unfolding healthy
healthy_each m now timeout k h lt =
    let each = healthy_from_each m now timeout m.expected_tasks 0 k h lt in
    let zeroth : 0 + k ≡ k = omega arith in
    let punctual : is_late m now timeout k ≡ false =
      subst (λ t. is_late m now timeout t ≡ false) zeroth each in
    ground arith
