-- ===== src/Startup.antt =====
-- main.c: how `main_bsp` and `main_ap` come together, with the test of `apic_init` for one other
-- processor. Each access to the shared variables is a step of one of the two, in any order.
pub mod Late
pub mod OnTime
pub mod Reached
pub mod Together
use smp_boot.Base.{ℕ, ◌+◌, ◌-◌, ◌%◌, ◌^◌, Bool, true, false, ltb, if◌then◌else◌, List, [], ◌∷◌}
use smp_boot.Sync.Mutex.{mutex_trylock}

-- Where the other processor is in `main_ap`: before it, between the read and the write of
-- `cpu_online++`, at `mutex_lock`, before `barrier`, and in it.
pub data ApPc : Type 0 where
  starting : ApPc
  online_loaded : (v : ℕ) → ApPc
  locking : ApPc
  locked : ApPc
  arrived : ApPc

-- Where the first one is: at `mutex_trylock` of `apic_init`, before `cpu_online++` of `main_bsp`,
-- between its read and its write, before the write of `max`, in the loop, and at the barrier.
pub data BspPc : Type 0 where
  calling : BspPc
  adding : BspPc
  add_loaded : (v : ℕ) → BspPc
  setting : BspPc
  waiting : BspPc
  entering : BspPc

pub record Startup : Type 0 where
  pub cpu_online : ℕ
  pub barrier_cnt : ℕ
  pub barrier_max : ℕ
  pub wakelock : ℕ
  pub ap : ApPc
  pub bsp : BspPc

unfoldable pub ap_step : Startup → Startup
unfolding mutex_trylock
ap_step s = elim s.ap [
  | starting ↦ record s { ap = online_loaded s.cpu_online }
  | online_loaded v ↦ record s { cpu_online = v + 1; ap = locking }
  | locking ↦
      let (got, word) = mutex_trylock s.wakelock in
      record s { wakelock = word; ap = if got then locked else locking }
  | locked ↦ record s { barrier_cnt = s.barrier_cnt + 1; ap = arrived }
  | arrived ↦ s
]

unfoldable pub bsp_step : Startup → Startup
unfolding mutex_trylock
bsp_step s = elim s.bsp [
  | calling ↦
      let (got, word) = mutex_trylock s.wakelock in record s { wakelock = word; bsp = adding }
  | adding ↦ record s { bsp = add_loaded s.cpu_online }
  | add_loaded v ↦ record s { cpu_online = v + 1; bsp = setting }
  | setting ↦ record s { barrier_max = s.cpu_online; bsp = waiting }
  | waiting ↦
      if ltb s.barrier_cnt ((s.barrier_max + (2 ^ 32 - 1)) % 2 ^ 32)
      then s
      else record s { bsp = entering }
  | entering ↦ s
]

-- The steps in an order: `true` is one of the other processor.
unfoldable pub startup_steps : List Bool → Startup → Startup
unfolding ap_step bsp_step
startup_steps [] s = s
startup_steps (true ∷ order) s = startup_steps order (ap_step s)
startup_steps (false ∷ order) s = startup_steps order (bsp_step s)

-- The first processor has called the other one. `global_barrier` is set up for MAX_CPU + 1.
abbrev pub called : Startup
called = record {
  cpu_online = 0;
  barrier_cnt = 0;
  barrier_max = 17;
  wakelock = 1;
  ap = starting;
  bsp = calling;
}
