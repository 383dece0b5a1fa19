-- ===== src/Smp/Halt.antt =====
-- smp.c: `smp_halt` on one processor and `smp_wakeup` for it on another, by their accesses to its
-- flags. `flags |= mask` and `flags &= ~mask` are a read and a write. The delays and the status
-- line are left out.
pub mod Inv
pub mod Protocol
pub mod Progress
use smp_boot.Base.{ℕ, zero, suc, Bool, true, false, if◌then◌else◌}

-- `cpu_info_t.flags`, with SMP_FLAG_HALT and SMP_FLAG_HALTED.
pub record Flags : Type 0 where
  pub halt : Bool
  pub halted : Bool

-- Where a processor is in `smp_halt`: before the call, between the read and the write of MASK_SET,
-- at the loop's test, between the test and `hlt`, stopped by `hlt`, behind the loop, between the
-- read and the write of MASK_CLEAR, and behind it.
pub data HaltPc : Type 0 where
  awake : HaltPc
  set_loaded : (v : Flags) → HaltPc
  testing : HaltPc
  before_hlt : HaltPc
  in_hlt : HaltPc
  leaving : HaltPc
  clear_loaded : (v : Flags) → HaltPc
  returned : HaltPc

-- Where the other one is in `smp_wakeup`: in the first loop, before MASK_CLEAR, between its read
-- and its write, at the test of the second loop, before `send_ipi`, and at the end.
pub data WakePc : Type 0 where
  waiting : WakePc
  clearing : WakePc
  wake_loaded : (v : Flags) → WakePc
  checking : WakePc
  sending : WakePc
  up : WakePc

-- The two processors, and whether an interrupt is pending at the first.
pub record State : Type 0 where
  pub flags : Flags
  pub pending : Bool
  pub sleeper : HaltPc
  pub waker : WakePc

-- The next access of `smp_halt`.
unfoldable pub halt_step : Flags → HaltPc → Flags × HaltPc
halt_step f awake = (f, set_loaded f)
halt_step f (set_loaded v) = (record { halt = true; halted = true }, testing)
halt_step f testing = if f.halt then (f, before_hlt) else (f, leaving)
halt_step f before_hlt = (f, in_hlt)
halt_step f in_hlt = (f, in_hlt)
halt_step f leaving = (f, clear_loaded f)
halt_step f (clear_loaded v) = (record v { halted = false }, returned)
halt_step f returned = (f, returned)

-- The next access of `smp_wakeup`, with the interrupt that is pending then.
unfoldable pub wakeup_step : Flags → Bool → WakePc → Flags × Bool × WakePc
wakeup_step f pending waiting = if f.halted then (f, pending, clearing) else (f, pending, waiting)
wakeup_step f pending clearing = (f, pending, wake_loaded f)
wakeup_step f pending (wake_loaded v) = (record v { halt = false }, pending, checking)
wakeup_step f pending checking = if f.halted then (f, pending, sending) else (f, pending, up)
wakeup_step f pending sending = (f, true, checking)
wakeup_step f pending up = (f, pending, up)

-- An interrupt ends `hlt`, and nothing else: one that is taken before it is lost.
abbrev pub taken : HaltPc → HaltPc
taken in_hlt = testing
taken pc = pc

pub data Actor : Type 0 where
  sleeper : Actor
  waker : Actor
  interrupt : Actor

unfoldable pub halt_actor : Actor → State → State
unfolding halt_step wakeup_step
halt_actor sleeper s =
    let (f, pc) = halt_step s.flags s.sleeper in record s { flags = f; sleeper = pc }
halt_actor waker s =
    let (f, pending, pc) = wakeup_step s.flags s.pending s.waker in
    record s { flags = f; pending = pending; waker = pc }
halt_actor interrupt s =
    if s.pending then record s { pending = false; sleeper = taken s.sleeper } else s

-- After `smp_init`, before both calls.
abbrev pub calm : Bool → State
calm pending = record {
  flags = record { halt = false; halted = false };
  pending = pending;
  sleeper = awake;
  waker = waiting;
}

-- The states that the two calls reach, however their accesses and the interrupts interleave.
pub data Reach : State → Type 0 where
  begin : (pending : Bool) → Reach (calm pending)
  then_act : {s : State} (a : Actor) → Reach s → Reach (halt_actor a s)

-- Rounds in which each of the three has a turn.
unfoldable pub rounds : ℕ → State → State
unfolding halt_actor
rounds zero s = s
rounds (suc n) s = rounds n (halt_actor interrupt (halt_actor waker (halt_actor sleeper s)))
