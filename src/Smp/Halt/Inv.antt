-- ===== src/Smp/Halt/Inv.antt =====
-- smp.c: the invariant of `smp_halt` and `smp_wakeup`.
use smp_boot.Base.{◌≡◌, refl, Bool, true, false, inl, inr, Bool-cases, arith}
use smp_boot.Smp.Halt.{
  Flags, HaltPc, awake, set_loaded, testing, before_hlt, in_hlt, leaving, clear_loaded, returned,
  WakePc, waiting, clearing, wake_loaded, checking, sending, up, State, halt_step, wakeup_step,
  taken, Actor, sleeper, waker, interrupt, halt_actor, Reach, begin, then_act,
}

-- The values of the two flags.
abbrev pub Bits : Bool → Bool → Flags → Type 0
Bits halt halted f = (f.halt ≡ halt) × (f.halted ≡ halted)

-- In the loop of `smp_halt`.
abbrev pub IsAsleep : HaltPc → Type 0
IsAsleep testing = Unit
IsAsleep before_hlt = Unit
IsAsleep in_hlt = Unit
IsAsleep _ = ⊥

-- Before the other processor has seen SMP_FLAG_HALTED.
abbrev pub Early : HaltPc → Flags → Type 0
Early awake f = Bits false false f
Early (set_loaded v) f = Bits false false f
Early testing f = Bits true true f
Early before_hlt f = Bits true true f
Early in_hlt f = Bits true true f
Early _ f = ⊥

-- After it has removed SMP_FLAG_HALT.
abbrev pub Late : HaltPc → Flags → Type 0
Late testing f = Bits false true f
Late before_hlt f = Bits false true f
Late in_hlt f = Bits false true f
Late leaving f = Bits false true f
Late (clear_loaded v) f = Bits false true f × Bits false true v
Late returned f = Bits false false f
Late _ f = ⊥

abbrev pub Over : HaltPc → Flags → Type 0
Over returned f = Bits false false f
Over _ f = ⊥

abbrev pub Fits : HaltPc → WakePc → Flags → Type 0
Fits pc waiting f = Early pc f
Fits pc clearing f = IsAsleep pc × Bits true true f
Fits pc (wake_loaded v) f = IsAsleep pc × Bits true true f × Bits true true v
Fits pc checking f = Late pc f
Fits pc sending f = Late pc f
Fits pc up f = Over pc f

Early-halt_step :
    (pc : HaltPc) (f : Flags) → Early pc f → Early (halt_step f pc).1 (halt_step f pc).0
unfolding halt_step
Early-halt_step awake f h = h
Early-halt_step (set_loaded v) f h = (refl, refl)
Early-halt_step testing f h = rw h.0 (refl, h.1)
Early-halt_step before_hlt f h = h
Early-halt_step in_hlt f h = h
Early-halt_step leaving f h = absurd h
Early-halt_step (clear_loaded v) f h = absurd h
Early-halt_step returned f h = absurd h

Asleep-halt_step :
    (pc : HaltPc) (f : Flags)
    → IsAsleep pc
    → Bits true true f
    → IsAsleep (halt_step f pc).1 × Bits true true (halt_step f pc).0
unfolding halt_step
Asleep-halt_step awake f h bits = absurd h
Asleep-halt_step (set_loaded v) f h bits = absurd h
Asleep-halt_step testing f h bits = rw bits.0 (tt, (refl, bits.1))
Asleep-halt_step before_hlt f h bits = (tt, bits)
Asleep-halt_step in_hlt f h bits = (tt, bits)
Asleep-halt_step leaving f h bits = absurd h
Asleep-halt_step (clear_loaded v) f h bits = absurd h
Asleep-halt_step returned f h bits = absurd h

Late-halt_step : (pc : HaltPc) (f : Flags) → Late pc f → Late (halt_step f pc).1 (halt_step f pc).0
unfolding halt_step
Late-halt_step awake f h = absurd h
Late-halt_step (set_loaded v) f h = absurd h
Late-halt_step testing f h = rw h.0 (refl, h.1)
Late-halt_step before_hlt f h = h
Late-halt_step in_hlt f h = h
Late-halt_step leaving f h = (h, h)
Late-halt_step (clear_loaded v) f h = (h.1.0, refl)
Late-halt_step returned f h = h

Over-halt_step : (pc : HaltPc) (f : Flags) → Over pc f → Over (halt_step f pc).1 (halt_step f pc).0
unfolding halt_step
Over-halt_step returned f h = h
Over-halt_step awake f h = absurd h
Over-halt_step (set_loaded v) f h = absurd h
Over-halt_step testing f h = absurd h
Over-halt_step before_hlt f h = absurd h
Over-halt_step in_hlt f h = absurd h
Over-halt_step leaving f h = absurd h
Over-halt_step (clear_loaded v) f h = absurd h

Fits-halt_step :
    (pc : HaltPc) (wake : WakePc) (f : Flags)
    → Fits pc wake f
    → Fits (halt_step f pc).1 wake (halt_step f pc).0
Fits-halt_step pc waiting f h = Early-halt_step pc f h
Fits-halt_step pc clearing f h = Asleep-halt_step pc f h.0 h.1
Fits-halt_step pc (wake_loaded v) f h =
    let (asleep, bits) = Asleep-halt_step pc f h.0 h.1 in (asleep, bits, h.2)
Fits-halt_step pc checking f h = Late-halt_step pc f h
Fits-halt_step pc sending f h = Late-halt_step pc f h
Fits-halt_step pc up f h = Over-halt_step pc f h

-- What the two tests of `smp_wakeup` find.
Early-halted :
    (pc : HaltPc) (f : Flags) → Early pc f → f.halted ≡ true → IsAsleep pc × Bits true true f
Early-halted awake f h e = absurd (grind (arith, h.1, e))
Early-halted (set_loaded v) f h e = absurd (grind (arith, h.1, e))
Early-halted testing f h e = (tt, h)
Early-halted before_hlt f h e = (tt, h)
Early-halted in_hlt f h e = (tt, h)
Early-halted leaving f h e = absurd h
Early-halted (clear_loaded v) f h e = absurd h
Early-halted returned f h e = absurd h

Late-running : (pc : HaltPc) (f : Flags) → Late pc f → f.halted ≡ false → Over pc f
Late-running awake f h e = absurd h
Late-running (set_loaded v) f h e = absurd h
Late-running testing f h e = absurd (grind (arith, h.1, e))
Late-running before_hlt f h e = absurd (grind (arith, h.1, e))
Late-running in_hlt f h e = absurd (grind (arith, h.1, e))
Late-running leaving f h e = absurd (grind (arith, h.1, e))
Late-running (clear_loaded v) f h e = absurd (grind (arith, h.0.1, e))
Late-running returned f h e = h

Late-asleep :
    (pc : HaltPc) (f v : Flags)
    → IsAsleep pc
    → Bits true true v
    → Late pc (record v { halt = false })
Late-asleep testing f v h bits = (refl, bits.1)
Late-asleep before_hlt f v h bits = (refl, bits.1)
Late-asleep in_hlt f v h bits = (refl, bits.1)
Late-asleep awake f v h bits = absurd h
Late-asleep (set_loaded w) f v h bits = absurd h
Late-asleep leaving f v h bits = absurd h
Late-asleep (clear_loaded w) f v h bits = absurd h
Late-asleep returned f v h bits = absurd h

Fits-wakeup_step :
    (pc : HaltPc) (wake : WakePc) (f : Flags) (pending : Bool)
    → Fits pc wake f
    → Fits pc (wakeup_step f pending wake).2 (wakeup_step f pending wake).0
unfolding wakeup_step
Fits-wakeup_step pc waiting f pending h = elim (Bool-cases f.halted) [
  | inl seen ↦ let (asleep, bits) = Early-halted pc f h seen in simp seen (asleep, (bits.0, refl))
  | inr unseen ↦ simp unseen h
]
Fits-wakeup_step pc clearing f pending h = (h.0, h.1, h.1)
Fits-wakeup_step pc (wake_loaded v) f pending h = Late-asleep pc f v h.0 h.2
Fits-wakeup_step pc checking f pending h = elim (Bool-cases f.halted) [
  | inl still ↦ simp still h
  | inr running ↦ simp running (Late-running pc f h running)
]
Fits-wakeup_step pc sending f pending h = h
Fits-wakeup_step pc up f pending h = h

Fits-taken : (pc : HaltPc) (wake : WakePc) (f : Flags) → Fits pc wake f → Fits (taken pc) wake f
Fits-taken awake wake f h = h
Fits-taken (set_loaded v) wake f h = h
Fits-taken testing wake f h = h
Fits-taken before_hlt wake f h = h
Fits-taken in_hlt waiting f h = h
Fits-taken in_hlt clearing f h = h
Fits-taken in_hlt (wake_loaded v) f h = h
Fits-taken in_hlt checking f h = h
Fits-taken in_hlt sending f h = h
Fits-taken in_hlt up f h = absurd h
Fits-taken leaving wake f h = h
Fits-taken (clear_loaded v) wake f h = h
Fits-taken returned wake f h = h

abbrev pub Inv : State → Type 0
Inv s = Fits s.sleeper s.waker s.flags

pub Inv-halt_actor : (a : Actor) (s : State) → Inv s → Inv (halt_actor a s)
unfolding halt_actor
Inv-halt_actor sleeper s h = Fits-halt_step s.sleeper s.waker s.flags h
Inv-halt_actor waker s h = Fits-wakeup_step s.sleeper s.waker s.flags s.pending h
Inv-halt_actor interrupt s h = elim (Bool-cases s.pending) [
  | inl now ↦ rw now (Fits-taken s.sleeper s.waker s.flags h)
  | inr none_now ↦ rw none_now h
]

pub Reach-Inv : {s : State} → Reach s → Inv s
Reach-Inv (begin pending) = (refl, refl)
Reach-Inv (then_act {s} a r) = Inv-halt_actor a s (Reach-Inv r)
