-- ===== src/Scheduler/Walk.antt =====
-- The walk of execute over the devices (src/aasm.c) against the plan of its calls.
use amalgam_asm.Base.{◌≡◌, refl, ◌∙◌, some, List, [], ◌∷◌}
use amalgam_asm.Scheduler.{Machine, Executor}
use amalgam_asm.Scheduler.Plan.{Call, run_all, IsSteady}

module _ {W : Type 0} (run : Executor W) where
  -- The calls of steady executors end, and leave the devices as they are.
  pub run_all-ends :
      (steady : IsSteady run) (calls : List Call) (m : Machine W)
      → (next : Machine W) × (run_all run calls m ≡ some next) × (next.store ≡ m.store)
  unfolding run_all
  run_all-ends steady [] m = (m, refl, refl)
  run_all-ends steady (x ∷ xs) m =
      let now = steady x.executor x.parent x.self m in
      let rest = run_all-ends steady xs now.0 in (rest.0, rw now.1 rest.1, rest.2 ∙ now.2)
