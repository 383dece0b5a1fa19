-- ===== src/Sync/Barrier/Safety.antt =====
-- sync.c: what `barrier` promises to the processors that call it.
use smp_boot.Base.{ℕ, ◌+◌, ◌^◌, ◌<◌, ◌≤◌, ◌≡◌, ◌≢◌, inl, inr, false, arith, ==_iff}
use smp_boot.Sync.Barrier.{
  Barrier, Pc, outside, entered, counted, releasing, storing, System, Reach,
}
use smp_boot.Sync.Barrier.Count.{count-all}
use smp_boot.Sync.Barrier.Inv.{Fits, is_last, in_episode}
use smp_boot.Sync.Barrier.Steps.{Reach-Inv}

-- The calls of a processor within an episode.
Fits-bounds :
    (n epoch done : ℕ) (pc : Pc) (arrived left : ℕ)
    → Fits n epoch done pc arrived left
    → (left ≤ done) × (done ≤ arrived) × (arrived ≤ done + 1)
Fits-bounds n epoch done outside arrived left fit = ground arith
Fits-bounds n epoch done (entered e) arrived left fit = ground arith
Fits-bounds n epoch done (counted e c) arrived left fit = ground arith
Fits-bounds n epoch done releasing arrived left fit = ground arith
Fits-bounds n epoch done (storing v) arrived left fit = ground arith

-- However the accesses of `n` processors to a barrier for `n` interleave, 0 < n < 2^32, none
-- returns from its k-th call of `barrier` before all have arrived at theirs, also when the epoch
-- wraps around.
pub left-le-arrived :
    {n : ℕ} {s : System}
    → 0 < n
    → n < 2 ^ 32
    → Reach n s
    → (i j : ℕ) → i < n
    → j < n
    → (s.cpu i).left ≤ (s.cpu j).arrived
left-le-arrived {n} {s} some_in small r i j i<n j<n =
    let (done, inv) = Reach-Inv some_in small r in
    let epoch = s.barrier.epoch in
    let mine =
      Fits-bounds n epoch done (s.cpu i).pc (s.cpu i).arrived (s.cpu i).left (inv.fits i i<n) in
    let other =
      Fits-bounds n epoch done (s.cpu j).pc (s.cpu j).arrived (s.cpu j).left (inv.fits j j<n) in
    ground (arith, mine, other)

-- The processor is in the loop that waits for the epoch, and its next read does not end it.
abbrev pub Spins : Barrier → Pc → Type 0
Spins b (counted e c) = (c ≢ b.max) × (e ≡ b.epoch)
Spins b outside = ⊥
Spins b (entered e) = ⊥
Spins b releasing = ⊥
Spins b (storing v) = ⊥

Spins-arrived :
    (b : Barrier) (n done : ℕ) (pc : Pc) (arrived left : ℕ)
    → b.max ≡ n
    → Fits n b.epoch done pc arrived left
    → Spins b pc
    → (arrived ≡ done + 1) × (is_last n pc ≡ false)
Spins-arrived b n done (counted e c) arrived left max_is fit spins = ground arith
Spins-arrived b n done outside arrived left max_is fit spins = absurd spins
Spins-arrived b n done (entered e) arrived left max_is fit spins = absurd spins
Spins-arrived b n done releasing arrived left max_is fit spins = absurd spins
Spins-arrived b n done (storing v) arrived left max_is fit spins = absurd spins

-- The processors of such a barrier never all wait for each other: in no reachable state do all of
-- them spin.
pub not_all-Spins :
    {n : ℕ} {s : System}
    → 0 < n
    → n < 2 ^ 32
    → Reach n s
    → ¬ ((i : ℕ) → i < n → Spins s.barrier (s.cpu i).pc)
not_all-Spins {n} {s} some_in small r all =
    let (done, inv) = Reach-Inv some_in small r in
    let here : (i : ℕ) → i < n → ((s.cpu i).arrived ≡ done + 1) × (is_last n (s.cpu i).pc ≡ false) =
      λ i i<n.
        Spins-arrived s.barrier n done (s.cpu i).pc (s.cpu i).arrived (s.cpu i).left inv.max_is
          (inv.fits i i<n) (all i i<n) in
    elim inv.phase [
      | inl g ↦ absurd (
          ground (
            arith,
            g.short,
            g.cnt_is,
            count-all (in_episode done s.cpu) n
                (λ i i<n. (==_iff (s.cpu i).arrived (done + 1)).1 (here i i<n).0),
          ))
      | inr k ↦ absurd (ground (arith, k.is_the_last, here k.last k.last_in))
    ]
