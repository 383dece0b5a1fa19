-- ===== src/Sync/Barrier.antt =====
-- sync.c: `barrier_init` and `barrier`, by the accesses to the shared structure.
pub mod Count
pub mod Inv
pub mod Steps
pub mod Safety
use smp_boot.Base.{ℕ, ◌+◌, ◌%◌, ◌^◌, ◌<◌, ◌==◌, if◌then◌else◌}

-- `barrier_t`
pub record Barrier : Type 0 where
  pub cnt : ℕ
  pub epoch : ℕ
  pub max : ℕ

unfoldable pub barrier_init : ℕ → Barrier
barrier_init max = record { cnt = 0; epoch = 0; max = max }

-- Where a processor is in `barrier`, with its local variables `e` and `c`: outside, after the read
-- of the epoch, after the increment of the counter, after the reset of it, and after the read that
-- `epoch++` begins with, about to store its argument.
pub data Pc : Type 0 where
  outside : Pc
  entered : (e : ℕ) → Pc
  counted : (e c : ℕ) → Pc
  releasing : Pc
  storing : (v : ℕ) → Pc

-- A processor. Beside the source's state it counts the calls in which it has incremented the
-- counter and the calls from which it has returned.
pub record Cpu : Type 0 where
  pub pc : Pc
  pub arrived : ℕ
  pub left : ℕ

-- The next access of a processor to the structure. A processor that finds the epoch unchanged stays
-- in its loop.
unfoldable pub barrier_step : Barrier → Pc → ℕ → ℕ → Barrier × Cpu
barrier_step b outside arrived left =
    (b, record { pc = entered b.epoch; arrived = arrived; left = left })
barrier_step b (entered e) arrived left =
    let c = (b.cnt + 1) % 2 ^ 32 in
    (record b { cnt = c }, record { pc = counted e c; arrived = arrived + 1; left = left })
barrier_step b (counted e c) arrived left =
    if c == b.max
    then (record b { cnt = 0 }, record { pc = releasing; arrived = arrived; left = left })
    else if e == b.epoch
    then (b, record { pc = counted e c; arrived = arrived; left = left })
    else (b, record { pc = outside; arrived = arrived; left = left + 1 })
barrier_step b releasing arrived left =
    (b, record { pc = storing ((b.epoch + 1) % 2 ^ 32); arrived = arrived; left = left })
barrier_step b (storing v) arrived left =
    (record b { epoch = v }, record { pc = outside; arrived = arrived; left = left + 1 })

pub record System : Type 0 where
  pub barrier : Barrier
  pub cpu : ℕ → Cpu

abbrev pub set_cpu : (ℕ → Cpu) → ℕ → Cpu → ℕ → Cpu
set_cpu cpu i c j = if j == i then c else cpu j

-- Processor `i` takes its next step.
unfoldable pub step : ℕ → System → System
step i s =
    let c = s.cpu i in
    let (b, c') = barrier_step s.barrier c.pc c.arrived c.left in
    record { barrier = b; cpu = set_cpu s.cpu i c' }

abbrev pub start : ℕ → System
start n = record {
  barrier = barrier_init n;
  cpu = λ i. record { pc = outside; arrived = 0; left = 0 };
}

-- The states that `n` processors reach, interleaved in any order, from a barrier for `n`.
pub data Reach (n : ℕ) : System → Type 0 where
  begin : Reach n (start n)
  then_step : {s : System} (i : ℕ) → i < n → Reach n s → Reach n (step i s)
