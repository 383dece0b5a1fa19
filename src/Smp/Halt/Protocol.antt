-- ===== src/Smp/Halt/Protocol.antt =====
-- smp.c: where one of `smp_halt` and `smp_wakeup` is when the other returns.
use smp_boot.Base.{◌≡◌, refl, false}
use smp_boot.Smp.Halt.{
  Flags, HaltPc, awake, set_loaded, testing, before_hlt, in_hlt, leaving, clear_loaded, returned,
  WakePc, waiting, clearing, wake_loaded, checking, sending, up, State, Reach,
}
use smp_boot.Smp.Halt.Inv.{Bits, Over, Fits, Reach-Inv}

pub Over-returned : (pc : HaltPc) (f : Flags) → Over pc f → (pc ≡ returned) × Bits false false f
Over-returned returned f h = (refl, h)
Over-returned awake f h = absurd h
Over-returned (set_loaded v) f h = absurd h
Over-returned testing f h = absurd h
Over-returned before_hlt f h = absurd h
Over-returned in_hlt f h = absurd h
Over-returned leaving f h = absurd h
Over-returned (clear_loaded v) f h = absurd h

-- When `smp_wakeup` returns, the other processor has left `smp_halt`, and both flags are removed:
-- none of their writes undoes one of the other, however the accesses interleave.
pub smp_wakeup-returned :
    {s : State}
    → Reach s
    → s.waker ≡ up
    → (s.sleeper ≡ returned) × (s.flags.halt ≡ false) × (s.flags.halted ≡ false)
smp_wakeup-returned {s} r e =
    let over : Over s.sleeper s.flags = rw e at (Reach-Inv r) in
    let (back, bits) = Over-returned s.sleeper s.flags over in (back, bits.0, bits.1)

-- The other processor has removed SMP_FLAG_HALT.
abbrev pub HasReleased : WakePc → Type 0
HasReleased checking = Unit
HasReleased sending = Unit
HasReleased up = Unit
HasReleased _ = ⊥

returned-HasReleased : (wake : WakePc) (f : Flags) → Fits returned wake f → HasReleased wake
returned-HasReleased waiting f h = absurd h
returned-HasReleased clearing f h = absurd h.0
returned-HasReleased (wake_loaded v) f h = absurd h.0
returned-HasReleased checking f h = tt
returned-HasReleased sending f h = tt
returned-HasReleased up f h = tt

-- `smp_halt` does not return before `smp_wakeup` has removed SMP_FLAG_HALT, whatever interrupts
-- there are.
pub smp_halt-returned : {s : State} → Reach s → s.sleeper ≡ returned → HasReleased s.waker
smp_halt-returned {s} r e =
    let fits : Fits returned s.waker s.flags = rw e at (Reach-Inv r) in
    returned-HasReleased s.waker s.flags fits
