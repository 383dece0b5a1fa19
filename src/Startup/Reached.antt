-- ===== src/Startup/Reached.antt =====
-- main.c: the states up to the point at which the first processor reads `cpu_online`.
use smp_boot.Base.{
  ℕ, ◌+◌, ◌-◌, ◌%◌, ◌^◌, ltb, ◌≡◌, refl, arith, inl, inr, Bool, true, false, ◌==◌, Bool-cases, List,
  [], ◌∷◌,
}
use smp_boot.Sync.Mutex.{mutex_trylock}
use smp_boot.Startup.{
  ApPc, BspPc, Startup, starting, online_loaded, locking, locked, arrived, calling, adding,
  add_loaded, setting, waiting, entering, ap_step, bsp_step, startup_steps, called,
}

-- What holds before the first one has read `cpu_online`, with its lock word `k` for the other one,
-- until the other one has its lock.
abbrev pub Before : ℕ → ApPc → ℕ → ℕ → ℕ → Type 0
Before k starting online cnt lock = (online ≡ 0) × (cnt ≡ 0) × (lock ≡ k)
Before k (online_loaded v) online cnt lock = (v ≡ 0) × (cnt ≡ 0) × (lock ≡ k)
Before k locking online cnt lock = (online ≡ 1) × (cnt ≡ 0) × (lock ≡ k)
Before k locked online cnt lock = Unit
Before k arrived online cnt lock = Unit

-- The states that are reached from `called`.
abbrev pub Reached : ApPc → BspPc → ℕ → ℕ → ℕ → Type 0
Reached ap calling online cnt lock = Before 1 ap online cnt lock
Reached ap adding online cnt lock = Before 0 ap online cnt lock
Reached ap (add_loaded v) online cnt lock = Unit
Reached ap setting online cnt lock = Unit
Reached ap waiting online cnt lock = Unit
Reached ap entering online cnt lock = Unit

abbrev pub IsReached : Startup → Type 0
IsReached s = Reached s.ap s.bsp s.cpu_online s.barrier_cnt s.wakelock

-- A state by its parts.
abbrev pub state : ℕ → ℕ → ℕ → ℕ → ApPc → BspPc → Startup
state online cnt bound lock ap bsp = record {
  cpu_online = online;
  barrier_cnt = cnt;
  barrier_max = bound;
  wakelock = lock;
  ap = ap;
  bsp = bsp;
}

ap_step-Before :
    (k online cnt bound lock : ℕ) (ap : ApPc) (bsp : BspPc)
    → Before k ap online cnt lock
    → let s = ap_step (state online cnt bound lock ap bsp) in
      Before k s.ap s.cpu_online s.barrier_cnt s.wakelock
unfolding ap_step mutex_trylock
ap_step-Before k online cnt bound lock starting bsp h = h
ap_step-Before k online cnt bound lock (online_loaded v) bsp (none_yet, empty, word) =
    (omega arith, empty, word)
ap_step-Before k online cnt bound lock locking bsp h = elim (Bool-cases (lock == 1)) [
  | inl free ↦ rw free tt
  | inr taken ↦ rw taken h
]
ap_step-Before k online cnt bound lock locked bsp h = tt
ap_step-Before k online cnt bound lock arrived bsp h = tt

ap_step-bsp :
    (online cnt bound lock : ℕ) (ap : ApPc) (bsp : BspPc)
    → (ap_step (state online cnt bound lock ap bsp)).bsp ≡ bsp
unfolding ap_step
ap_step-bsp online cnt bound lock starting bsp = refl
ap_step-bsp online cnt bound lock (online_loaded v) bsp = refl
ap_step-bsp online cnt bound lock locking bsp = refl
ap_step-bsp online cnt bound lock locked bsp = refl
ap_step-bsp online cnt bound lock arrived bsp = refl

-- A step of the other one, with the first one where it is.
ap_step-Reached :
    (online cnt bound lock : ℕ) (ap : ApPc) (bsp : BspPc)
    → Reached ap bsp online cnt lock
    → let s = ap_step (state online cnt bound lock ap bsp) in
      Reached s.ap bsp s.cpu_online s.barrier_cnt s.wakelock
ap_step-Reached online cnt bound lock ap calling h =
    ap_step-Before 1 online cnt bound lock ap calling h
ap_step-Reached online cnt bound lock ap adding h =
    ap_step-Before 0 online cnt bound lock ap adding h
ap_step-Reached online cnt bound lock ap (add_loaded v) h = tt
ap_step-Reached online cnt bound lock ap setting h = tt
ap_step-Reached online cnt bound lock ap waiting h = tt
ap_step-Reached online cnt bound lock ap entering h = tt

ap_step-IsReached : (s : Startup) → IsReached s → IsReached (ap_step s)
ap_step-IsReached s h =
    rw (ap_step-bsp s.cpu_online s.barrier_cnt s.barrier_max s.wakelock s.ap s.bsp)
      (ap_step-Reached s.cpu_online s.barrier_cnt s.barrier_max s.wakelock s.ap s.bsp h)

-- The test of `apic_init` takes the lock.
bsp_step-Before :
    (online cnt bound lock : ℕ) (ap : ApPc)
    → Before 1 ap online cnt lock
    → let s = bsp_step (state online cnt bound lock ap calling) in
      Before 0 ap s.cpu_online s.barrier_cnt s.wakelock
unfolding bsp_step mutex_trylock
bsp_step-Before online cnt bound lock starting (none_yet, empty, free) =
    rw free (none_yet, empty, refl)
bsp_step-Before online cnt bound lock (online_loaded v) (none_yet, empty, free) =
    rw free (none_yet, empty, refl)
bsp_step-Before online cnt bound lock locking (one, empty, free) = rw free (one, empty, refl)
bsp_step-Before online cnt bound lock locked h = tt
bsp_step-Before online cnt bound lock arrived h = tt

bsp_step-Reached :
    (online cnt bound lock : ℕ) (ap : ApPc) (bsp : BspPc)
    → Reached ap bsp online cnt lock
    → IsReached (bsp_step (state online cnt bound lock ap bsp))
unfolding bsp_step mutex_trylock
bsp_step-Reached online cnt bound lock ap calling h = bsp_step-Before online cnt bound lock ap h
bsp_step-Reached online cnt bound lock ap adding h = tt
bsp_step-Reached online cnt bound lock ap (add_loaded v) h = tt
bsp_step-Reached online cnt bound lock ap setting h = tt
bsp_step-Reached online cnt bound lock ap waiting h =
    elim (Bool-cases (ltb cnt ((bound + (2 ^ 32 - 1)) % 2 ^ 32))) [
      | inl waits ↦ rw waits tt
      | inr ends ↦ rw ends tt
    ]
bsp_step-Reached online cnt bound lock ap entering h = tt

bsp_step-IsReached : (s : Startup) → IsReached s → IsReached (bsp_step s)
bsp_step-IsReached s h =
    bsp_step-Reached s.cpu_online s.barrier_cnt s.barrier_max s.wakelock s.ap s.bsp h

startup_steps-IsReached :
    (order : List Bool) (s : Startup) → IsReached s → IsReached (startup_steps order s)
unfolding startup_steps
startup_steps-IsReached [] s h = h
startup_steps-IsReached (true ∷ order) s h =
    startup_steps-IsReached order (ap_step s) (ap_step-IsReached s h)
startup_steps-IsReached (false ∷ order) s h =
    startup_steps-IsReached order (bsp_step s) (bsp_step-IsReached s h)

-- The other one has counted itself and has not its lock, and the first one has tested the lock but
-- not read `cpu_online`.
pub reached_between :
    (order : List Bool)
    → let s = startup_steps order called in
      s.ap ≡ locking → s.bsp ≡ adding → (s.cpu_online ≡ 1) × (s.barrier_cnt ≡ 0) × (s.wakelock ≡ 0)
reached_between order ap bsp =
    let h = startup_steps-IsReached order called (refl, refl, refl) in rw (ap, bsp) at h
