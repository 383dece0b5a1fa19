-- ===== src/Tests/Startup.antt =====
-- Runs of the start of a second processor.
use smp_boot.Sync.Mutex.{mutex_trylock}
use smp_boot.Base.{refl, arith, Bool, List, true, false, [], ◌∷◌, ◌++◌}
use smp_boot.Startup.{ap_step, bsp_step, startup_steps, called}
use smp_boot.Startup.Late.{IsStuck, own_steps, startup_steps-late}
use smp_boot.Startup.Together.{in_time, IsTogether, startup_steps-in_time}

-- The first one tests the lock before the other one has stored its count.
abbrev late : List Bool
late = true ∷ false ∷ true ∷ []

abbrev further : List Bool
further = true ∷ false ∷ true ∷ false ∷ true ∷ false ∷ true ∷ false ∷ []

startup_steps-late_example : IsStuck (startup_steps (late ++ further) called)
unfolding startup_steps ap_step bsp_step mutex_trylock
startup_steps-late_example = startup_steps-late late further refl refl (omega arith)

startup_steps-in_time_example :
    IsTogether (startup_steps (in_time ++ (false ∷ false ∷ []) ++ true ∷ own_steps 5) called)
startup_steps-in_time_example = startup_steps-in_time (false ∷ false ∷ [])
