-- ===== src/Smp/Stop.antt =====
-- cpu.c: `stop` on the processors that are online. A step is what a processor does under the mutex,
-- or its test after it; the messages are left out.
pub mod Last
use smp_boot.Base.{ℕ, zero, suc, ◌+◌, ◌<◌, Bool, true, false, ◌==◌, ltb, if◌then◌else◌}

-- Where a processor is: before `stop`, behind the unlock, in the endless loop, in `reboot`.
pub data Phase : Type 0 where
  running : Phase
  counted : Phase
  asleep : Phase
  rebooting : Phase

pub record Stopping : Type 0 where
  pub cpus_halted : ℕ
  pub phase : ℕ → Phase

-- What a processor does next, with `cpus_halted`.
unfoldable pub stop_turn : ℕ → ℕ → Phase → ℕ × Phase
stop_turn cpu_online halted running = (halted + 1, counted)
stop_turn cpu_online halted counted =
    if ltb halted cpu_online then (halted, asleep) else (halted, rebooting)
stop_turn cpu_online halted asleep = (halted, asleep)
stop_turn cpu_online halted rebooting = (halted, rebooting)

abbrev pub put_phase : (ℕ → Phase) → ℕ → Phase → ℕ → Phase
put_phase phase i p j = if j == i then p else phase j

unfoldable pub stop_step : ℕ → ℕ → Stopping → Stopping
stop_step cpu_online i s =
    let (halted, p) = stop_turn cpu_online s.cpus_halted (s.phase i) in
    record { cpus_halted = halted; phase = put_phase s.phase i p }

-- The states that the processors reach in any order.
pub data Stops (cpu_online : ℕ) : Stopping → Type 0 where
  none_stopped : Stops cpu_online (record { cpus_halted = 0; phase = λ i. running })
  then_step :
      {s : Stopping} (i : ℕ)
      → i < cpu_online
      → Stops cpu_online s
      → Stops cpu_online (stop_step cpu_online i s)
