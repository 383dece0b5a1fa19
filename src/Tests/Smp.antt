-- ===== src/Tests/Smp.antt =====
-- A run of `smp_halt` and `smp_wakeup`.
use smp_boot.Base.{◌≡◌, refl, true, false, List, [], ◌∷◌}
use smp_boot.Smp.Halt.{
  State, Reach, begin, then_act, calm, Actor, sleeper, waker, interrupt, halt_actor, halt_step,
  wakeup_step, returned,
}
use smp_boot.Smp.Halt.Protocol.{smp_wakeup-returned}
use smp_boot.Smp.Halt.Progress.{Ends, halt_actor-Ends}

abbrev act_all : List Actor → State → State
act_all [] s = s
act_all (a ∷ rest) s = act_all rest (halt_actor a s)

Reach-act_all : (acts : List Actor) {s : State} → Reach s → Reach (act_all acts s)
Reach-act_all [] r = r
Reach-act_all (a ∷ rest) r = Reach-act_all rest (then_act a r)

-- The processor stops, is woken, and an interrupt that comes before `hlt` is lost.
abbrev stop : List Actor
stop = sleeper ∷ sleeper ∷ sleeper ∷ interrupt ∷ sleeper ∷ waker ∷ waker ∷ waker ∷ []

abbrev wake : List Actor
wake = waker ∷ waker ∷ interrupt ∷ sleeper ∷ sleeper ∷ sleeper ∷ waker ∷ []

abbrev stopped : State
stopped = act_all stop (calm true)

abbrev finished : State
finished = act_all wake stopped

stopped-Reach : Reach stopped
stopped-Reach = Reach-act_all stop (begin true)

finished-Reach : Reach finished
finished-Reach = Reach-act_all wake stopped-Reach

smp_wakeup-returned_example :
    (finished.sleeper ≡ returned) × (finished.flags.halt ≡ false) × (finished.flags.halted ≡ false)
unfolding halt_actor halt_step wakeup_step
smp_wakeup-returned_example = smp_wakeup-returned finished-Reach refl

halt_actor-Ends_example : Ends stopped
halt_actor-Ends_example = halt_actor-Ends stopped-Reach
