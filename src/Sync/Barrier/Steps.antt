-- ===== src/Sync/Barrier/Steps.antt =====
-- sync.c: every access of a processor in `barrier` keeps the invariant.
use smp_boot.Base.{
  ℕ, ◌+◌, ◌%◌, ◌^◌, ◌<◌, ◌≡◌, refl, sym, ap, ◌∙◌, ◌≢◌, inl, inr, true, false, arith, ◌==◌, ==_iff,
  Bool-cases,
}
use mathlib.Core.Path.{subst}
use native.Mathlib.Decide.{ℕ_discrete}
use smp_boot.Sync.Barrier.{
  Barrier, Pc, outside, entered, counted, releasing, storing, Cpu, barrier_step, System, set_cpu,
  step, barrier_init, start, Reach, begin, then_step,
}
use smp_boot.Sync.Barrier.Count.{count, count-none}
use smp_boot.Sync.Barrier.Inv.{
  is_last, is_reset, Fits, in_episode, Gathering, Complete, Inv, Next, each, set_cpu-other, after,
  Kept, keep-Gathering, keep-Complete, arrive,
}

-- A waiting processor, when the epoch changes.
Fits-next :
    (n epoch v done : ℕ) (pc : Pc) (arrived left : ℕ)
    → Fits n epoch done pc arrived left
    → arrived ≡ done + 1
    → is_last n pc ≡ false
    → epoch ≢ v
    → Fits n v (done + 1) pc arrived left
Fits-next n epoch v done outside arrived left fit here plain new = absurd (ground arith)
Fits-next n epoch v done (entered e) arrived left fit here plain new = absurd (ground arith)
Fits-next n epoch v done (counted e c) arrived left fit here plain new = ground arith
Fits-next n epoch v done releasing arrived left fit here plain new = absurd (ground arith)
Fits-next n epoch v done (storing w) arrived left fit here plain new = absurd (ground arith)

module _ {n done : ℕ} {s : System} (inv : Inv n done s) (small : n < 2 ^ 32) (i : ℕ)
    (i<n : i < n) where
  open inv use {max_is, epoch_in, fits, phase}

  -- The processor that is past the test is the last one.
  last_unique : (k : Complete n done s) → is_last n (s.cpu i).pc ≡ true → i ≡ k.last
  last_unique k mine = elim (ℕ_discrete i k.last) [
    | yes same ↦ same
    | no other ↦ absurd (ground (arith, k.only i i<n other))
  ]

  no_gathering : {A : Type 0} → Gathering n done s → is_last n (s.cpu i).pc ≡ true → A
  no_gathering g mine = absurd (ground (arith, g.no_last i i<n))

  release :
      (v : ℕ) (k : Complete n done s)
      → v ≡ (s.barrier.epoch + 1) % 2 ^ 32
      → i ≡ k.last
      → is_reset (s.cpu i).pc ≡ true
      → (s.cpu i).left ≡ done
      → Inv n (done + 1) (
          after inv i i<n
            (record s.barrier { epoch = v })
            (record { pc = outside; arrived = (s.cpu i).arrived; left = (s.cpu i).left + 1 }))
  release v k v_is me reset l =
      let c : Cpu = record {
        pc = outside;
        arrived = (s.cpu i).arrived;
        left = (s.cpu i).left + 1;
      } in
      let plain : (j : ℕ) → j < n → j ≢ i → is_last n (s.cpu j).pc ≡ false =
        λ j j<n other. k.only j j<n (λ e. other (e ∙ sym me)) in
      let cnt : s.barrier.cnt ≡ 0 = k.cnt_zero (ap (λ j. is_reset (s.cpu j).pc) (sym me) ∙ reset) in
      let nobody : count (in_episode (done + 1) (set_cpu s.cpu i c)) n ≡ 0 =
        count-none (in_episode (done + 1) (set_cpu s.cpu i c)) n (λ j j<n.
          each (λ k d. (d.arrived == done + 1 + 1) ≡ false) s.cpu i j c
            (ground (arith, k.all_in i i<n)) (λ _. ground (arith, k.all_in j j<n))) in
      record {
        max_is = max_is;
        epoch_in = omega arith;
        fits = λ j j<n.
            each (λ k d. Fits n v (done + 1) d.pc d.arrived d.left) s.cpu i j c
              (k.all_in i i<n, omega (arith, l))
              (λ other.
                Fits-next n s.barrier.epoch v done (s.cpu j).pc (s.cpu j).arrived (s.cpu j).left
                  (fits j j<n) (k.all_in j j<n) (plain j j<n other) (omega arith));
        phase = inl (record {
          cnt_is = cnt ∙ sym nobody;
          short = omega arith;
          no_last = λ j j<n. each (λ k d. is_last n d.pc ≡ false) s.cpu i j c refl (plain j j<n);
        });
      }

  abbrev Result : Barrier × Cpu → Type 0
  Result (b, c) = Next n done (after inv i i<n b c)

  -- The accesses that leave the structure as it is.
  keep :
      (c : Cpu)
      → c.arrived ≡ (s.cpu i).arrived
      → is_last n c.pc ≡ false
      → is_last n (s.cpu i).pc ≡ false
      → Kept inv i i<n c
      → Result (s.barrier, c)
  keep c same plain was fit = elim phase [
    | inl g ↦ inl (keep-Gathering inv i i<n c g same plain fit)
    | inr k ↦
        let elsewhere : k.last ≢ i = λ me. ground (arith, k.is_the_last) in
        inl (
          keep-Complete inv i i<n s.barrier.cnt c k same (plain ∙ sym was)
            (λ r.
              k.cnt_zero
                (ap (λ d. is_reset d.pc) (sym (set_cpu-other s.cpu i k.last c elsewhere)) ∙ r))
            fit)
  ]

  step_counted :
      (e c : ℕ)
      → (s.cpu i).pc ≡ counted e c
      → Fits n s.barrier.epoch done (counted e c) (s.cpu i).arrived (s.cpu i).left
      → Result (barrier_step s.barrier (counted e c) (s.cpu i).arrived (s.cpu i).left)
  unfolding barrier_step
  step_counted e c at fit = elim (Bool-cases (c == s.barrier.max)) [
    | inl last ↦
        let is_n : (c == n) ≡ true = ap (λ m. c == m) (sym max_is) ∙ last in
        let mine : is_last n (s.cpu i).pc ≡ true = ap (is_last n) at ∙ is_n in
        let value : barrier_step s.barrier (counted e c) (s.cpu i).arrived (s.cpu i).left ≡ (
          record s.barrier { cnt = 0 },
          record { pc = releasing; arrived = (s.cpu i).arrived; left = (s.cpu i).left },
        ) =
          rw last in
        subst Result (sym value) (elim phase [
          | inl g ↦ no_gathering g mine
          | inr k ↦ elim fit [
            | inl (a, l, _) ↦ inl (
                keep-Complete inv i i<n 0
                  (record { pc = releasing; arrived = (s.cpu i).arrived; left = (s.cpu i).left }) k
                  refl (sym mine) (λ _. refl) (a, l))
            | inr (_, _, _, not_last) ↦ absurd (not_last ((==_iff c n).0 is_n))
          ]
        ])
    | inr other ↦
        let not_n : (c == n) ≡ false = ap (λ m. c == m) (sym max_is) ∙ other in
        let was : is_last n (s.cpu i).pc ≡ false = ap (is_last n) at ∙ not_n in
        elim (Bool-cases (e == s.barrier.epoch)) [
          | inl waits ↦
              let value : barrier_step s.barrier (counted e c) (s.cpu i).arrived (s.cpu i).left ≡ (
                s.barrier,
                record { pc = counted e c; arrived = (s.cpu i).arrived; left = (s.cpu i).left },
              ) =
                rw (other, waits) in
              subst Result (sym value) (
                keep
                  (record { pc = counted e c; arrived = (s.cpu i).arrived; left = (s.cpu i).left })
                  refl not_n was fit)
          | inr ended ↦
              let value : barrier_step s.barrier (counted e c) (s.cpu i).arrived (s.cpu i).left ≡ (
                s.barrier,
                record { pc = outside; arrived = (s.cpu i).arrived; left = (s.cpu i).left + 1 },
              ) =
                rw (other, ended) in
              subst Result (sym value) (elim fit [
                | inl (_, _, same) ↦ absurd (ground arith)
                | inr (a, l, _, _) ↦
                    keep
                      (record {
                        pc = outside;
                        arrived = (s.cpu i).arrived;
                        left = (s.cpu i).left + 1;
                      })
                      refl refl was (a, l)
              ])
        ]
  ]

  pub step_at :
      (pc : Pc)
      → (s.cpu i).pc ≡ pc
      → Fits n s.barrier.epoch done pc (s.cpu i).arrived (s.cpu i).left
      → Result (barrier_step s.barrier pc (s.cpu i).arrived (s.cpu i).left)
  unfolding barrier_step
  step_at outside at (a, l) =
      keep
        (record {
          pc = entered s.barrier.epoch;
          arrived = (s.cpu i).arrived;
          left = (s.cpu i).left;
        })
        refl refl (ap (is_last n) at) (a, l, refl)
  step_at (entered e) at (a, l, e_is) = elim phase [
    | inl g ↦ inl (
        subst
          (λ x. Inv n done (
            after inv i i<n (record s.barrier { cnt = (s.barrier.cnt + 1) % 2 ^ 32 })
              (record {
                pc = counted e ((s.barrier.cnt + 1) % 2 ^ 32);
                arrived = x + 1;
                left = (s.cpu i).left;
              })))
          (sym a) (arrive inv i i<n e (s.cpu i).left small g a (l, e_is)))
    | inr k ↦ absurd (ground (arith, k.all_in i i<n))
  ]
  step_at (counted e c) at fit = step_counted e c at fit
  step_at releasing at (a, l) = elim phase [
    | inl g ↦ no_gathering g (ap (is_last n) at)
    | inr k ↦
        let me : i ≡ k.last = last_unique k (ap (is_last n) at) in
        inl (
          keep-Complete inv i i<n s.barrier.cnt
            (record {
              pc = storing ((s.barrier.epoch + 1) % 2 ^ 32);
              arrived = (s.cpu i).arrived;
              left = (s.cpu i).left;
            })
            k refl (sym (ap (is_last n) at))
            (λ _. k.cnt_zero (ap (λ j. is_reset (s.cpu j).pc) (sym me) ∙ ap is_reset at))
            (a, l, refl))
  ]
  step_at (storing v) at (a, l, v_is) = elim phase [
    | inl g ↦ no_gathering g (ap (is_last n) at)
    | inr k ↦ inr (release v k v_is (last_unique k (ap (is_last n) at)) (ap is_reset at) l)
  ]

pub step-Inv :
    {n done : ℕ} {s : System} (i : ℕ) → n < 2 ^ 32 → i < n → Inv n done s → Next n done (step i s)
unfolding step
step-Inv {s} i small i<n inv = step_at inv small i i<n (s.cpu i).pc refl (inv.fits i i<n)

-- The barrier is created for at least one processor.
pub start-Inv : (n : ℕ) → 0 < n → Inv n 0 (start n)
unfolding barrier_init
start-Inv n some_in = record {
  max_is = refl;
  epoch_in = omega arith;
  fits = λ i i<n. (refl, refl);
  phase = inl (record {
    cnt_is = sym (count-none (in_episode 0 (start n).cpu) n (λ i i<n. refl));
    short = some_in;
    no_last = λ i i<n. refl;
  });
}

pub Reach-Inv : {n : ℕ} {s : System} → 0 < n → n < 2 ^ 32 → Reach n s → (done : ℕ) × Inv n done s
Reach-Inv {n} some_in small begin = (0, start-Inv n some_in)
Reach-Inv some_in small (then_step i i<n r) =
    let (done, inv) = Reach-Inv some_in small r in
    elim (step-Inv i small i<n inv) [ inl same ↦ (done, same) | inr next ↦ (done + 1, next) ]
