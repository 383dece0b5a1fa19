-- ===== src/Startup/Late.antt =====
-- main.c: a processor that comes late.
use smp_boot.Base.{
  ℕ, zero, suc, ◌+◌, ◌-◌, ◌≤◌, ◌≡◌, refl, sym, ap, arith, Bool, true, false, List, [], ◌∷◌, ◌++◌,
}
use smp_boot.Sync.Mutex.{mutex_trylock}
use smp_boot.Startup.{
  ApPc, BspPc, Startup, locking, calling, adding, add_loaded, setting, waiting, entering, ap_step,
  bsp_step, startup_steps, called,
}
use smp_boot.Startup.Reached.{state, reached_between}

-- The other processor has counted itself and found its lock taken, and the first one waits for it.
abbrev pub IsStuck : Startup → Type 0
IsStuck s =
    (s.ap ≡ locking)
    × (s.bsp ≡ waiting)
    × (s.wakelock ≡ 0)
    × (s.barrier_cnt ≡ 0)
    × (s.barrier_max ≡ 2)

pub startup_steps-append :
    (a b : List Bool) (s : Startup) → startup_steps (a ++ b) s ≡ startup_steps b (startup_steps a s)
unfolding startup_steps
startup_steps-append [] b s = refl
startup_steps-append (true ∷ a) b s = startup_steps-append a b (ap_step s)
startup_steps-append (false ∷ a) b s = startup_steps-append a b (bsp_step s)

-- Steps of the first one.
abbrev pub own_steps : ℕ → List Bool
own_steps zero = []
own_steps (suc n) = false ∷ own_steps n

-- What the first one does after the other one has counted itself.
abbrev Later : BspPc → ℕ → ℕ → Type 0
Later calling online bound = ⊥
Later adding online bound = online ≡ 1
Later (add_loaded v) online bound = v ≡ 1
Later setting online bound = online ≡ 2
Later waiting online bound = bound ≡ 2
Later entering online bound = ⊥

-- How many steps it has left to the loop.
abbrev ahead : BspPc → ℕ
ahead calling = 4
ahead adding = 3
ahead (add_loaded v) = 2
ahead setting = 1
ahead waiting = 0
ahead entering = 0

-- The other one does not get its lock.
record IsLate (s : Startup) : Type 0 where
  ap : s.ap ≡ locking
  lock : s.wakelock ≡ 0
  cnt : s.barrier_cnt ≡ 0
  later : Later s.bsp s.cpu_online s.barrier_max

ap_step-kept : (s : Startup) → s.ap ≡ locking → s.wakelock ≡ 0 → ap_step s ≡ s
unfolding ap_step mutex_trylock
ap_step-kept s ap lock = rw (ap, lock, ap_step) (rw (sym ap, sym lock) refl)

bsp_step-IsLate :
    (online cnt bound lock : ℕ) (ap : ApPc) (bsp : BspPc)
    → IsLate (state online cnt bound lock ap bsp)
    → let s = bsp_step (state online cnt bound lock ap bsp) in
      IsLate s × (ahead s.bsp ≤ ahead bsp - 1)
unfolding bsp_step
bsp_step-IsLate online cnt bound lock ap calling h = absurd h.later
bsp_step-IsLate online cnt bound lock ap adding h =
    (record { ap = h.ap; lock = h.lock; cnt = h.cnt; later = h.later }, omega arith)
bsp_step-IsLate online cnt bound lock ap (add_loaded v) h =
    let two : v + 1 ≡ 2 = omega (arith, h.later) in
    (record { ap = h.ap; lock = h.lock; cnt = h.cnt; later = two }, omega arith)
bsp_step-IsLate online cnt bound lock ap setting h =
    (record { ap = h.ap; lock = h.lock; cnt = h.cnt; later = h.later }, omega arith)
bsp_step-IsLate online cnt bound lock ap waiting h =
    let two : bound ≡ 2 = h.later in
    let empty : cnt ≡ 0 = h.cnt in
    rw (two, empty) (record { ap = h.ap; lock = h.lock; cnt = refl; later = refl }, omega arith)
bsp_step-IsLate online cnt bound lock ap entering h = absurd h.later

startup_steps-IsLate :
    (order : List Bool) (s : Startup) → IsLate s → let s' = startup_steps order s in IsLate s'
unfolding startup_steps
startup_steps-IsLate [] s h = h
startup_steps-IsLate (true ∷ order) s h =
    rw (ap_step-kept s h.ap h.lock) (startup_steps-IsLate order s h)
startup_steps-IsLate (false ∷ order) s h =
    startup_steps-IsLate order (bsp_step s)
      (bsp_step-IsLate s.cpu_online s.barrier_cnt s.barrier_max s.wakelock s.ap s.bsp h).0

-- How many steps of an order are those of the first one.
abbrev pub own_count : List Bool → ℕ
own_count [] = 0
own_count (true ∷ order) = own_count order
own_count (false ∷ order) = suc (own_count order)

startup_steps-ahead :
    (order : List Bool) (s : Startup)
    → IsLate s
    → ahead (startup_steps order s).bsp ≤ ahead s.bsp - own_count order
unfolding startup_steps
startup_steps-ahead [] s h = omega arith
startup_steps-ahead (true ∷ order) s h = omega (
  arith,
  startup_steps-ahead order s h,
  ap (λ t. ahead (startup_steps order t).bsp) (ap_step-kept s h.ap h.lock),
)
startup_steps-ahead (false ∷ order) s h =
    let (next, less) =
      bsp_step-IsLate s.cpu_online s.barrier_cnt s.barrier_max s.wakelock s.ap s.bsp h in
    omega (arith, startup_steps-ahead order (bsp_step s) next)

late_ahead : (bsp : BspPc) (online bound : ℕ) → Later bsp online bound → ahead bsp ≤ 3
late_ahead calling online bound h = absurd h
late_ahead adding online bound h = omega arith
late_ahead (add_loaded v) online bound h = omega arith
late_ahead setting online bound h = omega arith
late_ahead waiting online bound h = omega arith
late_ahead entering online bound h = omega arith

late_waiting :
    (bsp : BspPc) (online bound : ℕ)
    → Later bsp online bound
    → ahead bsp ≤ 0
    → (bsp ≡ waiting) × (bound ≡ 2)
late_waiting calling online bound h none_left = absurd h
late_waiting adding online bound h none_left = absurd (omega arith)
late_waiting (add_loaded v) online bound h none_left = absurd (omega arith)
late_waiting setting online bound h none_left = absurd (omega arith)
late_waiting waiting online bound h none_left = (refl, h)
late_waiting entering online bound h none_left = absurd h

IsLate-IsStuck :
    (order : List Bool) (s : Startup)
    → IsLate s
    → 3 ≤ own_count order
    → IsStuck (startup_steps order s)
IsLate-IsStuck order s h enough =
    let s' = startup_steps order s in
    let h' = startup_steps-IsLate order s h in
    let room = late_ahead s.bsp s.cpu_online s.barrier_max h.later in
    let (waits, two) =
      late_waiting s'.bsp s'.cpu_online s'.barrier_max h'.later
        (omega (arith, startup_steps-ahead order s h)) in
    (h'.ap, waits, h'.lock, h'.cnt, two)

reached-IsLate :
    (order : List Bool)
    → (startup_steps order called).ap ≡ locking
    → (startup_steps order called).bsp ≡ adding
    → IsLate (startup_steps order called)
reached-IsLate order ap bsp =
    let (one, empty, taken) = reached_between order ap bsp in
    record { ap = ap; lock = taken; cnt = empty; later = rw bsp one }

-- Let an order of steps lead to the point at which the first processor has tested the lock but not
-- yet read `cpu_online` for its own count, while the other one has counted itself and not got its
-- lock. Then after every further order of steps, with three steps of the first one at least, the
-- other one still has not got its lock, no one is in the barrier, and the first one waits for it in
-- the loop.
pub startup_steps-late :
    (order further : List Bool)
    → (startup_steps order called).ap ≡ locking
    → (startup_steps order called).bsp ≡ adding
    → 3 ≤ own_count further
    → IsStuck (startup_steps (order ++ further) called)
startup_steps-late order further ap bsp enough =
    rw (startup_steps-append order further called)
      (IsLate-IsStuck further (startup_steps order called) (reached-IsLate order ap bsp) enough)
