-- ===== src/Tests/Locks.antt =====
-- Runs of the mutex and the flags of sync.c.
use smp_boot.Base.{ℕ, ◌≡◌, ◌≢◌, refl, [], ◌∷◌, false, arith}
use smp_boot.Sync.Mutex.{Mutex, unlocked, then_turn, lock_or_unlock, mutex_trylock, holds_unique}
use smp_boot.Sync.Flag.{
  signal, trywait, flag_init, wait_results, counter_results, wait_results-counter,
}

-- Processor 1 takes the mutex, and processor 0 fails to.
abbrev contended : Mutex
contended = lock_or_unlock 0 (lock_or_unlock 1 (record { word = 1; holds = λ i. false }))

holds_unique_example : (◌≡◌ {A = ℕ} 1 1) × (contended.word ≢ 1)
unfolding lock_or_unlock mutex_trylock
holds_unique_example = holds_unique (then_turn 0 (then_turn 1 unlocked)) 1 1 refl refl

wait_results-counter_example :
    wait_results (trywait ∷ signal ∷ signal ∷ trywait ∷ trywait ∷ trywait ∷ []) flag_init
    ≡ counter_results (trywait ∷ signal ∷ signal ∷ trywait ∷ trywait ∷ trywait ∷ []) 0
wait_results-counter_example =
    wait_results-counter (trywait ∷ signal ∷ signal ∷ trywait ∷ trywait ∷ trywait ∷ []) flag_init 0
      refl (omega arith)
