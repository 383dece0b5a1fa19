-- ===== src/Sync/Collective.antt =====
-- sync.c: `collective_only` and `collective_end`, as calls one after another, each as a whole. What
-- a processor may do between the accesses of one call of another, the old `coll_master` that it may
-- read until the new master has stored its number, is outside of this model. The processors that
-- are left out of the mask go into `smp_halt`, which returns after a `smp_wakeup`.
use smp_boot.Base.{
  ℕ, zero, suc, ◌+◌, ◌^◌, ◌≡◌, ◌≢◌, refl, ◌∙◌, ap, inl, inr, arith, Bool, true, false, not, ◌&&◌,
  ◌==◌, ltb, if◌then◌else◌, Bool-cases, ==_iff, List, [], ◌∷◌, testbit, in_run, in_run-other,
  in_run-first, in_run-past,
}
use smp_boot.Clib.Masks.{is_mask_set, is_mask_clear, is_mask_set-pow, is_mask_clear-pow}
use smp_boot.Sync.Mutex.{mutex_init, mutex_trylock, mutex_unlock}

-- The static variables.
pub record Collective : Type 0 where
  pub coll_mutex : ℕ
  pub coll_master : ℕ
  pub coll_mask : ℕ

abbrev pub coll_init : Collective
coll_init = record { coll_mutex = mutex_init; coll_master = 0; coll_mask = 0 }

-- Whether the processor goes on, without a halt, and the variables. The test of the mutex and the
-- stores of the master are one step.
unfoldable pub collective_only : ℕ → ℕ → Collective → Bool × Collective
unfolding mutex_trylock is_mask_set
collective_only mask myid s =
    let (got, word) = mutex_trylock s.coll_mutex in
    let master : Collective = record { coll_mutex = word; coll_master = myid; coll_mask = mask } in
    if is_mask_set mask (2 ^ myid)
    then (true, if got then master else record s { coll_mutex = word })
    else (false, s)

-- The loop of `collective_end`, for `n` processors from `u` on: those that `smp_wakeup` is called
-- for.
unfoldable pub wake_others : ℕ → ℕ → ℕ → List ℕ
unfolding is_mask_clear
wake_others zero mask u = []
wake_others (suc n) mask u =
    let rest = wake_others n mask (u + 1) in if is_mask_clear mask (2 ^ u) then u ∷ rest else rest

unfoldable pub collective_end : ℕ → ℕ → Collective → List ℕ × Collective
unfolding wake_others mutex_unlock
collective_end cpu_online myid s =
    if s.coll_master == myid
    then (wake_others cpu_online s.coll_mask 0, record s { coll_mutex = mutex_unlock s.coll_mutex })
    else ([], s)

-- How often a number is in a list.
abbrev pub count_of : ℕ → List ℕ → ℕ
count_of v [] = 0
count_of v (u ∷ us) = let rest = count_of v us in if v == u then rest + 1 else rest

wake_others-count :
    (n mask u v : ℕ)
    → count_of v (wake_others n mask u) ≡ (if in_run u n v && not (testbit mask v) then 1 else 0)
unfolding wake_others
wake_others-count zero mask u v = let empty : in_run u 0 v ≡ false = ground arith in rw empty refl
wake_others-count (suc n) mask u v =
    let rest = wake_others-count n mask (u + 1) v in
    let bit = is_mask_clear-pow u mask in
    elim (Bool-cases (v == u)) [
      | inl first ↦
          let e : v ≡ u = (==_iff v u).0 first in
          let self : (u == u) ≡ true = ground arith in
          let once : count_of u (wake_others n mask (u + 1)) ≡ 0 =
            wake_others-count n mask (u + 1) u ∙ rw (in_run-past n u) refl in
          elim (Bool-cases (testbit mask u)) [
            | inl kept ↦ rw (e, bit, kept, once) (ground arith)
            | inr halted ↦ rw (e, bit, halted, self, once, in_run-first n u) refl
          ]
      | inr later ↦ elim (Bool-cases (testbit mask u)) [
        | inl kept ↦ rw (bit, kept, in_run-other n u v later) rest
        | inr halted ↦ rw (bit, halted, later, in_run-other n u v later) rest
      ]
    ]

-- The variables while a master has the mutex.
abbrev pub mastered : ℕ → ℕ → Collective
mastered mask myid = record { coll_mutex = 0; coll_master = myid; coll_mask = mask }

collective_only-first :
    (mask myid : ℕ) (s : Collective)
    → s.coll_mutex ≡ 1
    → testbit mask myid ≡ true
    → (collective_only mask myid s).1 ≡ mastered mask myid
unfolding collective_only mutex_trylock
collective_only-first mask myid s free kept = rw (free, is_mask_set-pow myid mask, kept) refl

-- Another processor changes nothing then.
collective_only-later :
    (mask master u : ℕ)
    → collective_only mask u (mastered mask master) ≡ (testbit mask u, mastered mask master)
unfolding collective_only mutex_trylock
collective_only-later mask master u = elim (Bool-cases (testbit mask u)) [
  | inl kept ↦ rw (is_mask_set-pow u mask, kept) refl
  | inr halted ↦ rw (is_mask_set-pow u mask, halted) refl
]

collective_end-mastered :
    (mask master u cpu_online : ℕ)
    → let (woken, s) = collective_end cpu_online master (mastered mask master) in
      (count_of u woken ≡ (if ltb u cpu_online && not (testbit mask u) then 1 else 0))
      × (s.coll_mutex ≡ 1)
unfolding collective_end mutex_unlock
collective_end-mastered mask master u cpu_online =
    let self : (master == master) ≡ true = ground arith in
    let run : in_run 0 cpu_online u ≡ ltb u cpu_online = ground arith in
    rw self (rw run at (wake_others-count cpu_online mask 0 u), refl)

-- A processor that is not the master leaves all as it is at the end.
collective_end-other :
    (mask master u cpu_online : ℕ)
    → u ≢ master
    → (collective_end cpu_online u (mastered mask master)).1 ≡ mastered mask master
unfolding collective_end
collective_end-other mask master u cpu_online other =
    let no : (master == u) ≡ false = ground arith in rw no refl

-- A call of a processor: of `collective_only`, or of `collective_end`.
pub data Step : Type 0 where
  enters leaves : (u : ℕ) → Step

abbrev pub after_step : ℕ → ℕ → Step → Collective → Collective
after_step mask cpu_online (enters u) s = (collective_only mask u s).1
after_step mask cpu_online (leaves u) s = (collective_end cpu_online u s).1

abbrev pub after_steps : ℕ → ℕ → List Step → Collective → Collective
after_steps mask cpu_online [] s = s
after_steps mask cpu_online (e ∷ es) s =
    after_steps mask cpu_online es (after_step mask cpu_online e s)

-- The master does not end the section.
abbrev pub Goes : ℕ → List Step → Type 0
Goes master [] = Unit
Goes master (enters u ∷ es) = Goes master es
Goes master (leaves u ∷ es) = (u ≢ master) × Goes master es

after_steps-mastered :
    (es : List Step) (mask master cpu_online : ℕ)
    → Goes master es
    → after_steps mask cpu_online es (mastered mask master) ≡ mastered mask master
after_steps-mastered [] mask master cpu_online goes = refl
after_steps-mastered (enters u ∷ es) mask master cpu_online goes =
    ap (λ (r : Bool × Collective). after_steps mask cpu_online es r.1)
      (collective_only-later mask master u)
    ∙ after_steps-mastered es mask master cpu_online goes
after_steps-mastered (leaves u ∷ es) mask master cpu_online (other, goes) =
    ap (after_steps mask cpu_online es) (collective_end-other mask master u cpu_online other)
    ∙ after_steps-mastered es mask master cpu_online goes

-- For calls that run one after another, each as a whole: with the mutex free, a processor of the
-- mask becomes the master. Whatever calls of `collective_only` with this mask, and of
-- `collective_end` by others, come between that and its own `collective_end`, each processor `u`
-- that called `collective_only` among them is then woken by the master exactly once, if it is
-- online and did not go on, and else not at all; the mutex is free again.
pub collective_end-wakes :
    (before after : List Step) (mask master u cpu_online : ℕ) (s : Collective)
    → s.coll_mutex ≡ 1
    → testbit mask master ≡ true
    → Goes master before
    → Goes master after
    → let s1 = (collective_only mask master s).1 in
      let s2 = after_steps mask cpu_online before s1 in
      let (goes_on, s3) = collective_only mask u s2 in
      let s4 = after_steps mask cpu_online after s3 in
      let (woken, s5) = collective_end cpu_online master s4 in
      (count_of u woken ≡ (if ltb u cpu_online && not goes_on then 1 else 0)) × (s5.coll_mutex ≡ 1)
collective_end-wakes before after mask master u cpu_online s free kept goes1 goes2 =
    rw
      (
        collective_only-first mask master s free kept,
        after_steps-mastered before mask master cpu_online goes1,
        collective_only-later mask master u,
        after_steps-mastered after mask master cpu_online goes2,
      )
      (collective_end-mastered mask master u cpu_online)
