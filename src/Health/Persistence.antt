-- ===== src/Health/Persistence.antt =====
-- The hysteresis of FaultPersistence.
use Prim.Native.Nat.{min}
use savantix_dali_edge_contr.Prelude.{
  ℕ, zero, suc, ◌+◌, ◌≤◌, ◌<◌, ◌≡◌, refl, ◌∙◌, Bool, true, false, arith, ltb,
}
use savantix_dali_edge_contr.Health.{FaultPersistence, observe}

-- `n` observations of one kind.
unfoldable pub observe_run : Bool → ℕ → FaultPersistence → FaultPersistence
observe_run abnormal zero p = p
observe_run abnormal (suc n) p = (observe (observe_run abnormal n p) abnormal).1

-- The thresholds, which are bytes above 0, and the counters, which are bytes.
pub record IsValid (p : FaultPersistence) : Type 0 where
  pub warning_in : (0 < p.warning_samples) × (p.warning_samples ≤ 255)
  pub fault_in : (0 < p.fault_samples) × (p.fault_samples ≤ 255)
  pub recovery_in : (0 < p.recovery_samples) × (p.recovery_samples ≤ 255)
  pub abnormal_in : p.abnormal_count ≤ 255
  pub consecutive_in : p.consecutive_abnormal ≤ 255
  pub healthy_in : p.consecutive_healthy ≤ 255

pub observe-IsValid : (p : FaultPersistence) (b : Bool) → IsValid p → IsValid (observe p b).1
unfolding observe
observe-IsValid p true v = ground (arith, v)
observe-IsValid p false v = ground (arith, v)

-- What observations leave alone.
thresholds :
    (b : Bool) (n : ℕ) (p : FaultPersistence)
    → let q = observe_run b n p in
      (q.warning_samples ≡ p.warning_samples)
      × (q.fault_samples ≡ p.fault_samples)
      × (q.recovery_samples ≡ p.recovery_samples)
unfolding observe_run observe
thresholds b zero p = (refl, refl, refl)
thresholds true (suc n) p = thresholds true n p
thresholds false (suc n) p = thresholds false n p

-- After `n` abnormal observations.
abnormal_counts :
    (n : ℕ) (p : FaultPersistence)
    → IsValid p
    → let q = observe_run true n p in
      (q.abnormal_count ≡ min 255 (p.abnormal_count + n))
      × (q.consecutive_abnormal ≡ min 255 (p.consecutive_abnormal + n))
unfolding observe_run observe
abnormal_counts zero p v = (omega (arith, v.abnormal_in), omega (arith, v.consecutive_in))
abnormal_counts (suc n) p v = ground (arith, abnormal_counts n p v)

abnormal_raises :
    (n : ℕ) (p : FaultPersistence)
    → IsValid p
    → p.warning_samples ≤ suc n
    → (observe_run true (suc n) p).warning_active ≡ true
unfolding observe_run observe
abnormal_raises n p v h = ground (arith, abnormal_counts n p v, thresholds true n p, v.warning_in)

abnormal_faults :
    (n : ℕ) (p : FaultPersistence)
    → IsValid p
    → p.fault_samples ≤ suc n
    → (observe_run true (suc n) p).fault_active ≡ true
unfolding observe_run observe
abnormal_faults n p v h = ground (arith, abnormal_counts n p v, thresholds true n p, v.fault_in)

-- After `n` healthy observations that follow an abnormal one.
healthy_run :
    (n : ℕ) (p : FaultPersistence)
    → IsValid p
    → p.consecutive_healthy ≡ 0
    → p.warning_active ≡ true
    → p.fault_active ≡ true
    → let q = observe_run false n p in
      (q.consecutive_healthy ≡ min 255 n)
      × (q.warning_active ≡ ltb n p.recovery_samples)
      × (q.fault_active ≡ ltb n p.recovery_samples)
unfolding observe_run observe
healthy_run zero p v h w f = ground (arith, v.recovery_in)
healthy_run (suc n) p v h w f =
    ground (
      arith,
      healthy_run n p v h w f,
      thresholds false n p,
      v.recovery_in,
      v.warning_in,
      v.fault_in,
    )

abnormal_resets :
    (n : ℕ) (p : FaultPersistence) → (observe_run true (suc n) p).consecutive_healthy ≡ 0
unfolding observe_run observe
abnormal_resets n p = refl

observe_run-IsValid :
    (b : Bool) (n : ℕ) (p : FaultPersistence) → IsValid p → IsValid (observe_run b n p)
unfolding observe_run
observe_run-IsValid b zero p v = v
observe_run-IsValid b (suc n) p v =
    observe-IsValid (observe_run b n p) b (observe_run-IsValid b n p v)

-- With thresholds from 1 to 255, and whatever came before: a run of abnormal observations as long as both thresholds raises the warning and
-- the fault, and of the healthy observations that follow, all before the recovery threshold leave both
-- standing, and the one that reaches it clears both.
pub hysteresis :
    (n m : ℕ) (p : FaultPersistence)
    → IsValid p
    → p.warning_samples ≤ n
    → p.fault_samples ≤ n
    → let raised = observe_run true n p in
      let after = observe_run false m raised in
      (raised.warning_active ≡ true)
      × (raised.fault_active ≡ true)
      × (after.warning_active ≡ ltb m p.recovery_samples)
      × (after.fault_active ≡ ltb m p.recovery_samples)
hysteresis zero m p v w f = absurd (omega (arith, v.warning_in))
hysteresis (suc n) m p v w f =
    let raised = observe_run true (suc n) p in
    let warning = abnormal_raises n p v w in
    let fault = abnormal_faults n p v f in
    let same = thresholds true (suc n) p in
    let (_, after_warning, after_fault) =
      healthy_run m raised (observe_run-IsValid true (suc n) p v) (abnormal_resets n p) warning
        fault in
    let limit : ltb m raised.recovery_samples ≡ ltb m p.recovery_samples = rw (same.2) refl in
    (warning, fault, after_warning ∙ limit, after_fault ∙ limit)

-- From no warning and no abnormal count, fewer abnormal observations than the threshold raise none.
pub below_threshold :
    (n : ℕ) (p : FaultPersistence)
    → IsValid p
    → p.abnormal_count ≡ 0
    → p.warning_active ≡ false
    → n < p.warning_samples
    → (observe_run true n p).warning_active ≡ false
unfolding observe_run observe
below_threshold zero p v c w h = w
below_threshold (suc n) p v c w h =
    ground
      (arith, below_threshold n p v c w, abnormal_counts n p v, thresholds true n p, v.warning_in)
