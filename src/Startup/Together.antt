-- ===== src/Startup/Together.antt =====
-- main.c: both processors come to the barrier.
use smp_boot.Base.{ℕ, zero, suc, ◌-◌, ◌≤◌, ◌++◌, ◌≡◌, refl, arith, Bool, true, List, [], ◌∷◌}
use smp_boot.Startup.Late.{startup_steps-append, own_steps}
use smp_boot.Sync.Mutex.{mutex_trylock}
use smp_boot.Startup.{
  ApPc, BspPc, Startup, starting, online_loaded, locking, locked, arrived, calling, adding,
  add_loaded, setting, waiting, entering, ap_step, bsp_step, startup_steps, called,
}
use smp_boot.Startup.OnTime.{
  BspInv, IsOnTime, ap_step-IsOnTime, bsp_step-IsOnTime, startup_steps-IsOnTime,
}

-- How many steps the first processor has left to the barrier.
abbrev pub to_go : BspPc → ℕ
to_go calling = 5
to_go adding = 4
to_go (add_loaded v) = 3
to_go setting = 2
to_go waiting = 1
to_go entering = 0

-- Once the other one is in the barrier, each step of the first one counts.
bsp_progress :
    (online cnt bound lock : ℕ) (ap : ApPc) (bsp : BspPc)
    → let s : Startup = record {
      cpu_online = online;
      barrier_cnt = cnt;
      barrier_max = bound;
      wakelock = lock;
      ap = ap;
      bsp = bsp;
    } in
      ap ≡ arrived
      → IsOnTime s
      → ((bsp_step s).ap ≡ arrived) × (to_go (bsp_step s).bsp ≤ to_go bsp - 1)
unfolding bsp_step
bsp_progress online cnt bound lock ap calling there v = (there, omega arith)
bsp_progress online cnt bound lock ap adding there v = (there, omega arith)
bsp_progress online cnt bound lock ap (add_loaded x) there v = (there, omega arith)
bsp_progress online cnt bound lock ap setting there v = (there, omega arith)
bsp_progress online cnt bound lock ap waiting there v =
    let two : bound ≡ 2 = v.bsp_inv in
    let one : cnt ≡ 1 = rw there at v.ap_inv in rw (two, one) (there, omega arith)
bsp_progress online cnt bound lock ap entering there v = (there, omega arith)

bsp_steps-to_go :
    (n : ℕ) (s : Startup)
    → s.ap ≡ arrived
    → IsOnTime s
    → let s' = startup_steps (own_steps n) s in (s'.ap ≡ arrived) × (to_go s'.bsp ≤ to_go s.bsp - n)
unfolding startup_steps
bsp_steps-to_go zero s there v = (there, omega arith)
bsp_steps-to_go (suc n) s there v =
    let (stays, less) =
      bsp_progress s.cpu_online s.barrier_cnt s.barrier_max s.wakelock s.ap s.bsp there v in
    let (last, rest) = bsp_steps-to_go n (bsp_step s) stays (bsp_step-IsOnTime s v) in
    (last, omega arith)

to_go-le : (bsp : BspPc) → to_go bsp ≤ 5
to_go-le calling = omega arith
to_go-le adding = omega arith
to_go-le (add_loaded v) = omega arith
to_go-le setting = omega arith
to_go-le waiting = omega arith
to_go-le entering = omega arith

to_go-zero : (bsp : BspPc) → to_go bsp ≤ 0 → bsp ≡ entering
to_go-zero calling h = absurd (omega arith)
to_go-zero adding h = absurd (omega arith)
to_go-zero (add_loaded v) h = absurd (omega arith)
to_go-zero setting h = absurd (omega arith)
to_go-zero waiting h = absurd (omega arith)
to_go-zero entering h = refl

ap_arrives :
    (online cnt bound lock : ℕ) (ap : ApPc) (bsp : BspPc)
    → let s : Startup = record {
      cpu_online = online;
      barrier_cnt = cnt;
      barrier_max = bound;
      wakelock = lock;
      ap = ap;
      bsp = bsp;
    } in
      IsOnTime s → (ap_step s).ap ≡ arrived
unfolding ap_step
ap_arrives online cnt bound lock starting bsp v = absurd (omega (arith, v.ap_inv))
ap_arrives online cnt bound lock (online_loaded x) bsp v = absurd (omega (arith, v.ap_inv))
ap_arrives online cnt bound lock locking bsp v = absurd (omega (arith, v.ap_inv))
ap_arrives online cnt bound lock locked bsp v = refl
ap_arrives online cnt bound lock arrived bsp v = refl

-- Both at the barrier, with the number of processors in it.
abbrev pub IsTogether : Startup → Type 0
IsTogether s = (s.bsp ≡ entering) × (s.ap ≡ arrived) × (s.barrier_max ≡ 2) × (s.barrier_cnt ≡ 1)

together : (s : Startup) → IsOnTime s → IsTogether (startup_steps (own_steps 5) (ap_step s))
together s v =
    let v1 = ap_step-IsOnTime s v in
    let there = ap_arrives s.cpu_online s.barrier_cnt s.barrier_max s.wakelock s.ap s.bsp v in
    let (last, none_left) = bsp_steps-to_go 5 (ap_step s) there v1 in
    let small = to_go-le (ap_step s).bsp in
    let end = to_go-zero (startup_steps (own_steps 5) (ap_step s)).bsp (omega arith) in
    let v2 = startup_steps-IsOnTime (own_steps 5) (ap_step s) v1 in
    let s' = startup_steps (own_steps 5) (ap_step s) in
    let inv : BspInv entering s'.cpu_online s'.barrier_max s'.barrier_cnt = rw end at v2.bsp_inv in
    (end, last, inv.0, inv.1)

-- The other processor counts itself and takes its lock.
abbrev pub in_time : List Bool
in_time = true ∷ true ∷ true ∷ []

in_time-IsOnTime : IsOnTime (startup_steps in_time called)
unfolding startup_steps ap_step mutex_trylock
in_time-IsOnTime = record { lock = refl; ap_inv = refl; bsp_inv = refl }

-- If the other processor has its lock before the first one tests it, then whatever the order of the
-- further steps is, a step of the other one and five of the first one are enough that both are at
-- the barrier, which the other one has entered, for two processors.
pub startup_steps-in_time :
    (order : List Bool) → IsTogether (startup_steps (in_time ++ order ++ true ∷ own_steps 5) called)
unfolding startup_steps
startup_steps-in_time order =
    rw
      (
        startup_steps-append in_time (order ++ true ∷ own_steps 5) called,
        startup_steps-append order (true ∷ own_steps 5) (startup_steps in_time called),
      )
      (together (startup_steps order (startup_steps in_time called))
        (startup_steps-IsOnTime order (startup_steps in_time called) in_time-IsOnTime))
