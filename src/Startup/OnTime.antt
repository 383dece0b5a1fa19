-- ===== src/Startup/OnTime.antt =====
-- main.c: a processor that has its lock before it is tested.
use smp_boot.Base.{
  ℕ, suc, ◌+◌, ◌-◌, ◌≤◌, ◌%◌, ◌^◌, ◌≡◌, refl, arith, Bool, true, false, ltb, List, [], ◌∷◌,
  Bool-cases, inl, inr,
}
use smp_boot.Sync.Mutex.{mutex_trylock}
use smp_boot.Startup.{
  ApPc, BspPc, Startup, starting, online_loaded, locking, locked, arrived, calling, adding,
  add_loaded, setting, waiting, entering, ap_step, bsp_step, startup_steps,
}

abbrev pub ApInv : ApPc → ℕ → Type 0
ApInv locked cnt = cnt ≡ 0
ApInv arrived cnt = cnt ≡ 1
ApInv _ cnt = suc cnt ≡ cnt

abbrev pub BspInv : BspPc → ℕ → ℕ → ℕ → Type 0
BspInv calling online bound cnt = online ≡ 1
BspInv adding online bound cnt = online ≡ 1
BspInv (add_loaded v) online bound cnt = v ≡ 1
BspInv setting online bound cnt = online ≡ 2
BspInv waiting online bound cnt = bound ≡ 2
BspInv entering online bound cnt = (bound ≡ 2) × (cnt ≡ 1)

-- The other processor has its lock.
pub record IsOnTime (s : Startup) : Type 0 where
  pub lock : s.wakelock ≡ 0
  pub ap_inv : ApInv s.ap s.barrier_cnt
  pub bsp_inv : BspInv s.bsp s.cpu_online s.barrier_max s.barrier_cnt

ApInv-le : (ap : ApPc) (cnt : ℕ) → ApInv ap cnt → cnt ≤ 1
ApInv-le starting cnt h = absurd (omega arith)
ApInv-le (online_loaded v) cnt h = absurd (omega arith)
ApInv-le locking cnt h = absurd (omega arith)
ApInv-le locked cnt h = omega arith
ApInv-le arrived cnt h = omega arith

reached_one :
    (cnt bound : ℕ)
    → bound ≡ 2
    → cnt ≤ 1
    → ltb cnt ((bound + (2 ^ 32 - 1)) % 2 ^ 32) ≡ false
    → cnt ≡ 1
reached_one cnt bound two small behind = ground arith

grows-BspInv : (pc : BspPc) (online bound : ℕ) → BspInv pc online bound 0 → BspInv pc online bound 1
grows-BspInv calling online bound h = h
grows-BspInv adding online bound h = h
grows-BspInv (add_loaded v) online bound h = h
grows-BspInv setting online bound h = h
grows-BspInv waiting online bound h = h
grows-BspInv entering online bound (h, h') = (h, refl)

ap_fields :
    (online cnt bound lock : ℕ) (ap : ApPc) (bsp : BspPc)
    → let s : Startup = record {
      cpu_online = online;
      barrier_cnt = cnt;
      barrier_max = bound;
      wakelock = lock;
      ap = ap;
      bsp = bsp;
    } in
      IsOnTime s → IsOnTime (ap_step s)
unfolding ap_step
ap_fields online cnt bound lock starting bsp v = absurd (omega (arith, v.ap_inv))
ap_fields online cnt bound lock (online_loaded x) bsp v = absurd (omega (arith, v.ap_inv))
ap_fields online cnt bound lock locking bsp v = absurd (omega (arith, v.ap_inv))
ap_fields online cnt bound lock locked bsp v = record {
  lock = v.lock;
  ap_inv = omega (arith, v.ap_inv);
  bsp_inv = let e : cnt ≡ 0 = v.ap_inv in rw e (grows-BspInv bsp online bound (rw e at v.bsp_inv));
}
ap_fields online cnt bound lock arrived bsp v = v

bsp_fields :
    (online cnt bound lock : ℕ) (ap : ApPc) (bsp : BspPc)
    → let s : Startup = record {
      cpu_online = online;
      barrier_cnt = cnt;
      barrier_max = bound;
      wakelock = lock;
      ap = ap;
      bsp = bsp;
    } in
      IsOnTime s → IsOnTime (bsp_step s)
unfolding bsp_step mutex_trylock
bsp_fields online cnt bound lock ap calling v = record {
  lock = let e : lock ≡ 0 = v.lock in rw e refl;
  ap_inv = v.ap_inv;
  bsp_inv = v.bsp_inv;
}
bsp_fields online cnt bound lock ap adding v = record {
  lock = v.lock;
  ap_inv = v.ap_inv;
  bsp_inv = v.bsp_inv;
}
bsp_fields online cnt bound lock ap (add_loaded x) v = record {
  lock = v.lock;
  ap_inv = v.ap_inv;
  bsp_inv = omega (arith, v.bsp_inv);
}
bsp_fields online cnt bound lock ap setting v = record {
  lock = v.lock;
  ap_inv = v.ap_inv;
  bsp_inv = v.bsp_inv;
}
bsp_fields online cnt bound lock ap waiting v =
    let two : bound ≡ 2 = v.bsp_inv in
    elim (Bool-cases (ltb cnt ((bound + (2 ^ 32 - 1)) % 2 ^ 32))) [
      | inl before ↦ rw before v
      | inr behind ↦ rw behind record {
        lock = v.lock;
        ap_inv = v.ap_inv;
        bsp_inv = (two, reached_one cnt bound two (ApInv-le ap cnt v.ap_inv) behind);
      }
    ]
bsp_fields online cnt bound lock ap entering v = v

pub ap_step-IsOnTime : (s : Startup) → IsOnTime s → IsOnTime (ap_step s)
ap_step-IsOnTime s v = ap_fields s.cpu_online s.barrier_cnt s.barrier_max s.wakelock s.ap s.bsp v

pub bsp_step-IsOnTime : (s : Startup) → IsOnTime s → IsOnTime (bsp_step s)
bsp_step-IsOnTime s v = bsp_fields s.cpu_online s.barrier_cnt s.barrier_max s.wakelock s.ap s.bsp v

pub startup_steps-IsOnTime :
    (order : List Bool) (s : Startup) → IsOnTime s → IsOnTime (startup_steps order s)
unfolding startup_steps
startup_steps-IsOnTime [] s v = v
startup_steps-IsOnTime (true ∷ order) s v =
    startup_steps-IsOnTime order (ap_step s) (ap_step-IsOnTime s v)
startup_steps-IsOnTime (false ∷ order) s v =
    startup_steps-IsOnTime order (bsp_step s) (bsp_step-IsOnTime s v)
