-- ===== src/Tests/Stopping.antt =====
-- Runs of `stop`, of a collective section, and of the system management interrupts.
use smp_boot.Base.{
  ℕ, zero, suc, ◌+◌, ◌*◌, ◌/◌, ◌%◌, ◌<◌, ◌≡◌, refl, true, not, ◌&&◌, ltb, if◌then◌else◌, arith,
  List, [], ◌∷◌,
}
use smp_boot.Smp.Stop.{
  Stopping, rebooting, running, stop_step, stop_turn, Stops, none_stopped, then_step,
}
use smp_boot.Smp.Stop.Last.{reboots, has_stopped, is_done, reboots-all_stopped, all_done-reboots}
use smp_boot.Sync.Collective.{
  coll_init, collective_only, collective_end, count_of, collective_end-wakes, Step, enters, leaves,
  after_steps,
}
use smp_boot.Smm.{Smm, smm_default, smm_init, smm_deactivate, smm_restore}
use smp_boot.Smm.Restore.{smm_restore-undo}

abbrev before_stop : Stopping
before_stop = record { cpus_halted = 0; phase = λ i. running }

-- Both processors test `cpus_halted` after both have counted themselves.
abbrev both_stopped : Stopping
both_stopped = stop_step 2 1 (stop_step 2 0 (stop_step 2 1 (stop_step 2 0 before_stop)))

both_stopped-Stops : Stops 2 both_stopped
both_stopped-Stops =
    then_step 1 (omega arith) (
      then_step 0 (omega arith)
        (then_step 1 (omega arith) (then_step 0 (omega arith) none_stopped)))

-- Both reboot.
both_reboot : (both_stopped.phase 0 ≡ rebooting) × (both_stopped.phase 1 ≡ rebooting)
unfolding stop_step stop_turn
both_reboot = (refl, refl)

reboots-all_stopped_example : has_stopped (both_stopped.phase 1) ≡ true
unfolding stop_step stop_turn
reboots-all_stopped_example =
    reboots-all_stopped 2 0 1 (omega arith) both_stopped-Stops refl (omega arith)

both_done : (i : ℕ) → i < 2 → is_done (both_stopped.phase i) ≡ true
unfolding stop_step stop_turn
both_done zero h = refl
both_done (suc zero) h = refl
both_done (suc (suc i)) h = absurd (omega arith)

all_done-reboots_example : (i : ℕ) × (i < 2) × (reboots (both_stopped.phase i) ≡ true)
all_done-reboots_example = all_done-reboots 2 (omega arith) both_stopped-Stops both_done

-- Processors 0 and 2 of four go on.
abbrev earlier : List Step
earlier = enters 0 ∷ leaves 0 ∷ []

abbrev later : List Step
later = enters 1 ∷ []

collective_end-wakes_example :
    let s1 = (collective_only 5 2 coll_init).1 in
    let s2 = after_steps 5 4 earlier s1 in
    let (goes_on, s3) = collective_only 5 3 s2 in
    let s4 = after_steps 5 4 later s3 in
    let (woken, s5) = collective_end 4 2 s4 in
    (count_of 3 woken ≡ (if ltb 3 4 && not goes_on then 1 else 0)) × (s5.coll_mutex ≡ 1)
collective_end-wakes_example =
    collective_end-wakes earlier later 5 2 3 4 coll_init refl refl (omega arith, tt) tt

-- A chip set with the registers at 0x400, where bit 0 of SMI_EN is locked.
abbrev locked_write : ℕ → ℕ → ℕ
locked_write x v = v / 2 * 2 + x % 2

abbrev fresh : Smm
fresh = record { pmbase = 0; bak_smi_en = 0 }

smm_restore-undo_example :
    let s = smm_init (λ a. 0x401) (λ p. 0x33) fresh in
    let (value, off) = smm_deactivate locked_write s (λ p. 0x33) in
    ((smm_restore locked_write value s off).1 0x430 ≡ 0x33)
    × ((smm_restore locked_write smm_default s off).1 0x430 ≡ 0x33)
smm_restore-undo_example =
    smm_restore-undo (λ a. 0x401) (λ p. 0x33) locked_write fresh 0x430 (λ x v. omega arith)
