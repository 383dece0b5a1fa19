-- ===== src/Tests/Barrier.antt =====
-- Runs of the barrier of sync.c.
use smp_boot.Base.{ℕ, ◌≤◌, ◌<◌, ◌≡◌, refl, arith}
use smp_boot.Sync.Barrier.{System, barrier_step, barrier_init, step, start, Reach, begin, then_step}
use smp_boot.Sync.Barrier.Safety.{Spins, left-le-arrived, not_all-Spins}

-- Two processors: the first arrives and waits, the second arrives last and releases it, and the
-- first returns and calls again.
abbrev twice : System
twice = step 0 (
    step 0
      (step 0 (step 1 (step 1 (step 1 (step 1 (step 1 (step 0 (step 0 (step 0 (start 2)))))))))))

twice-Reach : Reach 2 twice
twice-Reach = then_step 0 (omega arith) (
    then_step 0 (omega arith) (
      then_step 0 (omega arith) (
        then_step 1 (omega arith) (
          then_step 1 (omega arith) (
            then_step 1 (omega arith) (
              then_step 1 (omega arith) (
                then_step 1 (omega arith) (
                  then_step 0 (omega arith)
                    (then_step 0 (omega arith) (then_step 0 (omega arith) begin))))))))))

left-twice : (twice.cpu 0).left ≡ 1
unfolding step barrier_step barrier_init
left-twice = refl

arrived-twice : (twice.cpu 0).arrived ≡ 2
unfolding step barrier_step barrier_init
arrived-twice = refl

left-le-arrived_example : (twice.cpu 0).left ≤ (twice.cpu 1).arrived
left-le-arrived_example =
    left-le-arrived (omega arith) (omega arith) twice-Reach 0 1 (omega arith) (omega arith)

not_all-Spins_example : ¬ ((i : ℕ) → i < 2 → Spins twice.barrier (twice.cpu i).pc)
not_all-Spins_example = not_all-Spins (omega arith) (omega arith) twice-Reach
