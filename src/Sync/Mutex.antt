-- ===== src/Sync/Mutex.antt =====
-- sync.c: mutexes. `mutex_lock` repeats the test of `mutex_trylock` until it succeeds.
use smp_boot.Base.{ℕ, ◌≡◌, refl, ◌≢◌, Bool, true, false, arith, ◌==◌, if◌then◌else◌}

-- MUTEX_INITIALIZER: 1 is free, 0 is locked.
abbrev pub mutex_init : ℕ
mutex_init = 1

-- `__sync_bool_compare_and_swap(m, 1, 0)`: whether the mutex was free, and its new value
unfoldable pub mutex_trylock : ℕ → Bool × ℕ
mutex_trylock m = if m == 1 then (true, 0) else (false, m)

unfoldable pub mutex_unlock : ℕ → ℕ
mutex_unlock m = 1

-- A mutex and the processors that are between a lock and the unlock.
pub record Mutex : Type 0 where
  pub word : ℕ
  pub holds : ℕ → Bool

-- What processor `i` does next: one round of `mutex_lock` (or `mutex_trylock`) while it does not
-- hold the mutex, and `mutex_unlock` only while it does.
unfoldable pub lock_or_unlock : ℕ → Mutex → Mutex
unfolding mutex_trylock mutex_unlock
lock_or_unlock i s =
    let (got, word) = mutex_trylock s.word in
    if s.holds i
    then record { word = mutex_unlock s.word; holds = λ j. if j == i then false else s.holds j }
    else record { word = word; holds = λ j. if j == i then got else s.holds j }

-- The states that the processors reach in any order.
pub data Locks : Mutex → Type 0 where
  unlocked : Locks (record { word = mutex_init; holds = λ i. false })
  then_turn : {s : Mutex} (i : ℕ) → Locks s → Locks (lock_or_unlock i s)

record IsOwned (s : Mutex) : Type 0 where
  free : s.word ≡ 1 → (i : ℕ) → s.holds i ≡ false
  unique : (i j : ℕ) → s.holds i ≡ true → s.holds j ≡ true → i ≡ j

lock_or_unlock-IsOwned : (i : ℕ) (s : Mutex) → IsOwned s → IsOwned (lock_or_unlock i s)
unfolding lock_or_unlock mutex_trylock mutex_unlock
lock_or_unlock-IsOwned i s v = record {
  free = λ e j. ground (arith, v.free, v.unique i j);
  unique = λ j k hj hk.
      (let free_at : (l : ℕ) → s.word ≡ 1 → s.holds l ≡ false = λ l e. v.free e l in
        ground (arith, v.unique j k, v.unique i j, v.unique i k, free_at j, free_at k));
}

Locks-IsOwned : {s : Mutex} → Locks s → IsOwned s
Locks-IsOwned unlocked = record { free = λ e i. refl; unique = λ i j h. ground arith }
Locks-IsOwned (then_turn {s} i r) = lock_or_unlock-IsOwned i s (Locks-IsOwned r)

-- Among processors that only unlock what they hold, never do two hold the mutex, and while one
-- does, the mutex is not free.
pub holds_unique :
    {s : Mutex} → Locks s → (i j : ℕ) → s.holds i ≡ true → s.holds j ≡ true → (i ≡ j) × (s.word ≢ 1)
holds_unique r i j hi hj =
    let v = Locks-IsOwned r in (v.unique i j hi hj, λ e. absurd (ground (arith, v.free e i)))
