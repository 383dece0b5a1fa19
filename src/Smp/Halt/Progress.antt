-- ===== src/Smp/Halt/Progress.antt =====
-- smp.c: `smp_halt` and `smp_wakeup` in rounds of turns.
use smp_boot.Base.{ℕ, suc, ◌≡◌, refl, Bool, true, false}
use smp_boot.Smp.Halt.{
  Flags, HaltPc, awake, set_loaded, testing, before_hlt, in_hlt, leaving, clear_loaded, returned,
  WakePc, waiting, clearing, wake_loaded, checking, sending, up, State, halt_step, wakeup_step,
  sleeper, waker, interrupt, halt_actor, Reach, rounds,
}
use smp_boot.Smp.Halt.Protocol.{Over-returned}
use smp_boot.Smp.Halt.Inv.{Bits, IsAsleep, Early, Late, Fits, Inv, Inv-halt_actor, Reach-Inv}

abbrev EndsIn : ℕ → State → Type 0
EndsIn n s = ((rounds n s).waker ≡ up) × ((rounds n s).sleeper ≡ returned)

-- Some number of rounds brings both calls to their ends.
abbrev pub Ends : State → Type 0
Ends s = (n : ℕ) × ((rounds n s).waker ≡ up) × ((rounds n s).sleeper ≡ returned)

abbrev round : State → State
round s = halt_actor interrupt (halt_actor waker (halt_actor sleeper s))

later-Ends : (s : State) → Ends (round s) → Ends s
unfolding rounds
later-Ends s (n, w, h) = (suc n, w, h)

abbrev at : HaltPc → WakePc → Flags → Bool → State
at pc wake f pending = record { flags = f; pending = pending; sleeper = pc; waker = wake }

abbrev bits : Bool → Bool → Flags
bits halt halted = record { halt = halt; halted = halted }

Bits-bits : (halt halted : Bool) (f : Flags) → Bits halt halted f → f ≡ bits halt halted
Bits-bits halt halted f h = rw (h.0, h.1) refl

-- With the flags known, and an interrupt pending or not.
settled_Ends :
    (n : ℕ) (pc : HaltPc) (wake : WakePc) (halt halted : Bool) (f : Flags) (pending : Bool)
    → Bits halt halted f
    → EndsIn n (at pc wake (bits halt halted) true)
    → EndsIn n (at pc wake (bits halt halted) false)
    → Ends (at pc wake f pending)
settled_Ends n pc wake halt halted f true h now later =
    let e = Bits-bits halt halted f h in rw e (n, now.0, now.1)
settled_Ends n pc wake halt halted f false h now later =
    let e = Bits-bits halt halted f h in rw e (n, later.0, later.1)

Late-Ends : (pc : HaltPc) (f : Flags) (pending : Bool) → Late pc f → Ends (at pc checking f pending)
unfolding rounds halt_actor halt_step wakeup_step
Late-Ends testing f p h = settled_Ends 8 testing checking false true f p h (refl, refl) (refl, refl)
Late-Ends before_hlt f p h =
    settled_Ends 8 before_hlt checking false true f p h (refl, refl) (refl, refl)
Late-Ends in_hlt f p h = settled_Ends 8 in_hlt checking false true f p h (refl, refl) (refl, refl)
Late-Ends leaving f p h = settled_Ends 8 leaving checking false true f p h (refl, refl) (refl, refl)
Late-Ends (clear_loaded v) f p h =
    settled_Ends 8 (clear_loaded v) checking false true f p h.0 (refl, refl) (refl, refl)
Late-Ends returned f p h =
    settled_Ends 8 returned checking false false f p h (refl, refl) (refl, refl)
Late-Ends awake f p h = absurd h
Late-Ends (set_loaded v) f p h = absurd h

Asleep-Ends :
    (pc : HaltPc) (f : Flags) (pending : Bool)
    → IsAsleep pc
    → Bits true true f
    → Ends (at pc clearing f pending)
unfolding rounds halt_actor halt_step wakeup_step
Asleep-Ends testing f p h e =
    settled_Ends 14 testing clearing true true f p e (refl, refl) (refl, refl)
Asleep-Ends before_hlt f p h e =
    settled_Ends 14 before_hlt clearing true true f p e (refl, refl) (refl, refl)
Asleep-Ends in_hlt f p h e =
    settled_Ends 14 in_hlt clearing true true f p e (refl, refl) (refl, refl)
Asleep-Ends awake f p h e = absurd h
Asleep-Ends (set_loaded v) f p h e = absurd h
Asleep-Ends leaving f p h e = absurd h
Asleep-Ends (clear_loaded v) f p h e = absurd h
Asleep-Ends returned f p h e = absurd h

Early-Ends :
    (pc : HaltPc) (f : Flags) (pending : Bool) → Early pc f → Ends (at pc waiting f pending)
unfolding rounds halt_actor halt_step wakeup_step
Early-Ends awake f p h = settled_Ends 18 awake waiting false false f p h (refl, refl) (refl, refl)
Early-Ends (set_loaded v) f p h =
    settled_Ends 18 (set_loaded v) waiting false false f p h (refl, refl) (refl, refl)
Early-Ends testing f p h = settled_Ends 18 testing waiting true true f p h (refl, refl) (refl, refl)
Early-Ends before_hlt f p h =
    settled_Ends 18 before_hlt waiting true true f p h (refl, refl) (refl, refl)
Early-Ends in_hlt f p h = settled_Ends 18 in_hlt waiting true true f p h (refl, refl) (refl, refl)
Early-Ends leaving f p h = absurd h
Early-Ends (clear_loaded v) f p h = absurd h
Early-Ends returned f p h = absurd h

Inv-round : (s : State) → Inv s → Inv (round s)
Inv-round s h =
    let awoken = halt_actor sleeper s in
    Inv-halt_actor interrupt (halt_actor waker awoken)
      (Inv-halt_actor waker awoken (Inv-halt_actor sleeper s h))

Fits-Ends :
    (pc : HaltPc) (wake : WakePc) (f : Flags) (pending : Bool)
    → Fits pc wake f
    → Ends (at pc wake f pending)
unfolding halt_actor wakeup_step
Fits-Ends pc waiting f p h = Early-Ends pc f p h
Fits-Ends pc clearing f p h = Asleep-Ends pc f p h.0 h.1
Fits-Ends pc checking f p h = Late-Ends pc f p h
Fits-Ends pc (wake_loaded v) f true h =
    let s = at pc (wake_loaded v) f true in
    later-Ends s (Late-Ends (round s).sleeper (round s).flags false (Inv-round s h))
Fits-Ends pc (wake_loaded v) f false h =
    let s = at pc (wake_loaded v) f false in
    later-Ends s (Late-Ends (round s).sleeper (round s).flags false (Inv-round s h))
Fits-Ends pc sending f p h =
    let s = at pc sending f p in
    later-Ends s (Late-Ends (round s).sleeper (round s).flags false (Inv-round s h))
Fits-Ends pc up f p h = unfold rounds in (0, refl, (Over-returned pc f h).0)

-- From every state that the two calls reach, in any interleaving and whatever interrupts were taken
-- before `hlt`, a number of rounds in which each processor and the interrupt have a turn brings
-- both calls to their ends: no wake-up is lost.
pub halt_actor-Ends : {s : State} → Reach s → Ends s
halt_actor-Ends {s} r = Fits-Ends s.sleeper s.waker s.flags s.pending (Reach-Inv r)
