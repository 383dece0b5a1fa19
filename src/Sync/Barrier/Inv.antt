-- ===== src/Sync/Barrier/Inv.antt =====
-- sync.c: what holds between two accesses of the processors in `barrier`.
use smp_boot.Base.{
  ℕ, ◌+◌, ◌%◌, ◌^◌, ◌<◌, ◌≡◌, refl, sym, ap, ◌∙◌, Bool-cases, ◌≢◌, ◌⊎◌, inl, inr, Bool, true, false,
  arith, ◌==◌, ==_iff,
}
use mathlib.Core.Path.{subst}
use native.Mathlib.Decide.{ℕ_discrete}
use smp_boot.Sync.Barrier.{
  Barrier, Pc, outside, entered, counted, releasing, storing, Cpu, System, set_cpu,
}
use smp_boot.Sync.Barrier.Count.{count, count-ext, count-full, count-set}

-- The processor is past the test that it is the last one.
abbrev pub is_last : ℕ → Pc → Bool
is_last max (counted e c) = c == max
is_last max releasing = true
is_last max (storing v) = true
is_last max _ = false

-- The counter is reset.
abbrev pub is_reset : Pc → Bool
is_reset releasing = true
is_reset (storing v) = true
is_reset _ = false

-- A processor in the episode after `done` ones: it waits for this episode, or it has not yet seen
-- the end of the one before.
abbrev pub Fits : (n epoch : ℕ) → ℕ → Pc → ℕ → ℕ → Type 0
Fits n epoch done outside arrived left = (arrived ≡ done) × (left ≡ done)
Fits n epoch done (entered e) arrived left = (arrived ≡ done) × (left ≡ done) × (e ≡ epoch)
Fits n epoch done (counted e c) arrived left =
    ((arrived ≡ done + 1) × (left ≡ done) × (e ≡ epoch))
    ⊎ ((arrived ≡ done) × (left + 1 ≡ done) × (e ≢ epoch) × (c ≢ n))
Fits n epoch done releasing arrived left = (arrived ≡ done + 1) × (left ≡ done)
Fits n epoch done (storing v) arrived left =
    (arrived ≡ done + 1) × (left ≡ done) × (v ≡ (epoch + 1) % 2 ^ 32)

abbrev pub in_episode : ℕ → (ℕ → Cpu) → ℕ → Bool
in_episode done cpu i = (cpu i).arrived == done + 1

-- Some processor has still to arrive, and the counter says how many have.
pub record Gathering (n done : ℕ) (s : System) : Type 0 where
  pub cnt_is : s.barrier.cnt ≡ count (in_episode done s.cpu) n
  pub short : s.barrier.cnt < n
  pub no_last : (i : ℕ) → i < n → is_last n (s.cpu i).pc ≡ false

-- All have arrived, and one of them is the last.
pub record Complete (n done : ℕ) (s : System) : Type 0 where
  pub last : ℕ
  pub last_in : last < n
  pub is_the_last : is_last n (s.cpu last).pc ≡ true
  pub only : (i : ℕ) → i < n → i ≢ last → is_last n (s.cpu i).pc ≡ false
  pub all_in : (i : ℕ) → i < n → (s.cpu i).arrived ≡ done + 1
  pub cnt_zero : is_reset (s.cpu last).pc ≡ true → s.barrier.cnt ≡ 0

pub record Inv (n done : ℕ) (s : System) : Type 0 where
  pub max_is : s.barrier.max ≡ n
  pub epoch_in : s.barrier.epoch < 2 ^ 32
  pub fits :
      (i : ℕ) → i < n → Fits n s.barrier.epoch done (s.cpu i).pc (s.cpu i).arrived (s.cpu i).left
  pub phase : Gathering n done s ⊎ Complete n done s

-- What a step leads to: the same episode, or the next one.
abbrev pub Next : ℕ → ℕ → System → Type 0
Next n done s = Inv n done s ⊎ Inv n (done + 1) s

pub set_cpu-same : (cpu : ℕ → Cpu) (i : ℕ) (c : Cpu) → set_cpu cpu i c i ≡ c
set_cpu-same cpu i c = rw ((==_iff i i).1 refl)

pub set_cpu-other : (cpu : ℕ → Cpu) (i j : ℕ) (c : Cpu) → j ≢ i → set_cpu cpu i c j ≡ cpu j
set_cpu-other cpu i j c j≢i = ground arith

-- What holds of a processor's new state and of the others' states holds of all.
pub each :
    (P : ℕ → Cpu → Type 0) (cpu : ℕ → Cpu) (i j : ℕ) (c : Cpu)
    → P i c
    → (j ≢ i → P j (cpu j))
    → P j (set_cpu cpu i c j)
each P cpu i j c here there = elim (ℕ_discrete j i) [
  | yes j≡i ↦
      subst (λ k. P k (set_cpu cpu i c k)) (sym j≡i) (subst (P i) (sym (set_cpu-same cpu i c)) here)
  | no j≢i ↦ subst (P j) (sym (set_cpu-other cpu i j c j≢i)) (there j≢i)
]

module _ {n done : ℕ} {s : System} (inv : Inv n done s) (i : ℕ) (i<n : i < n) where
  open inv use {max_is, epoch_in, fits, phase}

  -- The state after processor `i` has changed to `c` and the structure to `b`.
  abbrev pub after : Barrier → Cpu → System
  after b c = record { barrier = b; cpu = set_cpu s.cpu i c }

  abbrev pub Kept : Cpu → Type 0
  Kept c = Fits n s.barrier.epoch done c.pc c.arrived c.left

  pub fits_after : (c : Cpu) → Kept c → (j : ℕ) → j < n → Kept (set_cpu s.cpu i c j)
  fits_after c fit j j<n = each (λ k d. Kept d) s.cpu i j c fit (λ _. fits j j<n)

  pub keep-Gathering :
      (c : Cpu)
      → Gathering n done s
      → c.arrived ≡ (s.cpu i).arrived
      → is_last n c.pc ≡ false
      → Kept c
      → Inv n done (after s.barrier c)
  keep-Gathering c g same plain fit = record {
    max_is = max_is;
    epoch_in = epoch_in;
    fits = fits_after c fit;
    phase = inl (record {
      cnt_is =
          g.cnt_is
          ∙ sym (
              count-ext (in_episode done (set_cpu s.cpu i c)) (in_episode done s.cpu) n (λ j j<n.
                each (λ k d. (d.arrived == done + 1) ≡ in_episode done s.cpu k) s.cpu i j c
                  (ap (λ a. a == done + 1) same) (λ _. refl)));
      short = g.short;
      no_last =
          λ j j<n. each (λ k d. is_last n d.pc ≡ false) s.cpu i j c plain (λ _. g.no_last j j<n);
    });
  }

  pub keep-Complete :
      (cnt : ℕ) (c : Cpu) (k : Complete n done s)
      → c.arrived ≡ (s.cpu i).arrived
      → is_last n c.pc ≡ is_last n (s.cpu i).pc
      → (is_reset (set_cpu s.cpu i c k.last).pc ≡ true → cnt ≡ 0)
      → Kept c
      → Inv n done (after (record s.barrier { cnt = cnt }) c)
  keep-Complete cnt c k same same_last zero_if fit = record {
    max_is = max_is;
    epoch_in = epoch_in;
    fits = fits_after c fit;
    phase = inr (record {
      last = k.last;
      last_in = k.last_in;
      is_the_last =
          each (λ j d. is_last n d.pc ≡ is_last n (s.cpu j).pc) s.cpu i k.last c same_last
            (λ _. refl)
          ∙ k.is_the_last;
      only = λ j j<n other.
          each (λ k d. is_last n d.pc ≡ is_last n (s.cpu k).pc) s.cpu i j c same_last (λ _. refl)
          ∙ k.only j j<n other;
      all_in = λ j j<n.
          each (λ k d. d.arrived ≡ (s.cpu k).arrived) s.cpu i j c same (λ _. refl) ∙ k.all_in j j<n;
      cnt_zero = zero_if;
    });
  }

  pub arrive :
      (e left : ℕ)
      → n < 2 ^ 32
      → Gathering n done s
      → (s.cpu i).arrived ≡ done
      → (left ≡ done) × (e ≡ s.barrier.epoch)
      → let c = (s.barrier.cnt + 1) % 2 ^ 32 in
        Inv n done (
          after
            (record s.barrier { cnt = c })
            (record { pc = counted e c; arrived = done + 1; left = left }))
  arrive e left small g before (l, e_is) =
      let c = (s.barrier.cnt + 1) % 2 ^ 32 in
      let me : Cpu = record { pc = counted e c; arrived = done + 1; left = left } in
      let here : (in_episode done (set_cpu s.cpu i me) i) ≡ true =
        ground (arith, set_cpu-same s.cpu i me) in
      let more : count (in_episode done (set_cpu s.cpu i me)) n ≡ c = ground (
        arith,
        g.short,
        g.cnt_is,
        count-set (in_episode done s.cpu) (in_episode done (set_cpu s.cpu i me)) n i i<n
            (ground arith) here
            (λ j j≢i. ap (λ d. d.arrived == done + 1) (set_cpu-other s.cpu i j me j≢i)),
      ) in
      record {
        max_is = max_is;
        epoch_in = epoch_in;
        fits = fits_after me (inl (refl, l, e_is));
        phase = elim (Bool-cases (c == n)) [
          | inl full ↦ inr (record {
            last = i;
            last_in = i<n;
            is_the_last = ap (λ d. is_last n d.pc) (set_cpu-same s.cpu i me) ∙ full;
            only = λ j j<n other.
                ap (λ d. is_last n d.pc) (set_cpu-other s.cpu i j me other) ∙ g.no_last j j<n;
            all_in = λ j j<n. (==_iff (set_cpu s.cpu i me j).arrived (done + 1)).0 (
                count-full (in_episode done (set_cpu s.cpu i me)) n j (more ∙ (==_iff c n).0 full)
                  j<n);
            cnt_zero = λ r. absurd (ground (arith, set_cpu-same s.cpu i me));
          })
          | inr short ↦ inl (record {
            cnt_is = sym more;
            short = ground (arith, g.short);
            no_last = λ j j<n.
                each (λ k d. is_last n d.pc ≡ false) s.cpu i j me short (λ _. g.no_last j j<n);
          })
        ];
      }
