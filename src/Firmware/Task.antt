-- ===== src/Firmware/Task.antt =====
-- The demo task of app_main.
use savantix_dali_edge_contr.Prelude.{ℕ, List, [], ◌∷◌, ◌/◌, FloatOps}
use savantix_dali_edge_contr.Demo.{DemoController, new_controller, step}
use savantix_dali_edge_contr.Demo.Consistency.{
  IsConsistent, step-IsConsistent, new_controller-IsConsistent,
}
use savantix_dali_edge_contr.Firmware.{demo_task}

module _ {F : Type 0} (fl : FloatOps F) where
  demo_task-kept :
      (readings : List ℕ) (demo : DemoController F)
      → IsConsistent fl demo
      → IsConsistent fl (demo_task fl readings demo)
  unfolding demo_task
  demo_task-kept [] demo c = c
  demo_task-kept (micros ∷ later) demo c =
      demo_task-kept later (step fl demo (micros / 1000))
        (step-IsConsistent fl demo (micros / 1000) c)

  -- Whatever the timer reads, and after any number of rounds of the task, the parts of the demo fit
  -- together: the registry is valid and holds as many devices as were counted as discovered; no two slots
  -- hold the same event of one device; there are four engines, a session that allows retries, and a
  -- transport with its whole buffer.
  pub demo_task-IsConsistent :
      (readings : List ℕ) → IsConsistent fl (demo_task fl readings (new_controller fl))
  demo_task-IsConsistent readings =
      demo_task-kept readings (new_controller fl) (new_controller-IsConsistent fl)
