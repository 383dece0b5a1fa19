-- ===== src/Smp/Stop/Last.antt =====
-- cpu.c: the last processor that stops, and only then one, reboots.
use smp_boot.Base.{
  ℕ, zero, suc, ◌+◌, ◌<◌, ◌≤◌, ◌≡◌, refl, sym, ◌∙◌, ap, ◌⊎◌, inl, inr, arith, Bool, true, false,
  ◌==◌, ltb, if◌then◌else◌, Bool-cases, ==_iff,
}
use smp_boot.Smp.Stop.{
  Phase, running, counted, asleep, rebooting, Stopping, stop_turn, put_phase, stop_step, Stops,
  none_stopped, then_step,
}

abbrev pub has_stopped : Phase → Bool
has_stopped running = false
has_stopped _ = true

abbrev pub reboots : Phase → Bool
reboots rebooting = true
reboots _ = false

-- Behind the unlock, or in `reboot`.
abbrev pub may_reboot : Phase → Bool
may_reboot counted = true
may_reboot rebooting = true
may_reboot _ = false

abbrev pub one_if : Bool → ℕ
one_if b = if b then 1 else 0

-- How many of the first `n` processors have called `stop`.
abbrev pub stopped_cnt : ℕ → (ℕ → Phase) → ℕ
stopped_cnt zero phase = 0
stopped_cnt (suc n) phase = stopped_cnt n phase + one_if (has_stopped (phase n))

stopped_cnt-le : (n : ℕ) (phase : ℕ → Phase) → stopped_cnt n phase ≤ n
stopped_cnt-le zero phase = omega arith
stopped_cnt-le (suc n) phase = ground (arith, stopped_cnt-le n phase)

-- All of them, if there are that many.
stopped_cnt-all :
    (n i : ℕ) (phase : ℕ → Phase) → stopped_cnt n phase ≡ n → i < n → has_stopped (phase i) ≡ true
stopped_cnt-all zero i phase all inside = absurd (omega arith)
stopped_cnt-all (suc n) i phase all inside = elim (Bool-cases (has_stopped (phase n))) [
  | inl here ↦ elim (Bool-cases (i == n)) [
    | inl same ↦ rw ((==_iff i n).0 same) here
    | inr other ↦ stopped_cnt-all n i phase (ground arith) (ground arith)
  ]
  | inr not_here ↦ absurd (ground (arith, stopped_cnt-le n phase))
]

-- One processor's change.
stopped_cnt-put :
    (n i : ℕ) (phase : ℕ → Phase) (p : Phase)
    → stopped_cnt n (put_phase phase i p) + (if ltb i n then one_if (has_stopped (phase i)) else 0)
      ≡ stopped_cnt n phase + (if ltb i n then one_if (has_stopped p) else 0)
stopped_cnt-put zero i phase p = ground arith
stopped_cnt-put (suc n) i phase p =
    let before = stopped_cnt-put n i phase p in
    elim (Bool-cases (n == i)) [
      | inl same ↦
          let e : n ≡ i = (==_iff n i).0 same in
          let out : ltb i n ≡ false = ground arith in
          let inside : ltb i (suc n) ≡ true = ground arith in
          let own = ap (λ j. one_if (has_stopped (phase j))) e in
          let rest = rw out at before in rw (same, inside) (omega arith)
      | inr other ↦
          let same_test : ltb i (suc n) ≡ ltb i n = ground arith in
          rw (other, same_test) (omega arith)
    ]

turn-count :
    (n h : ℕ) (p : Phase)
    → let (h', p') = stop_turn n h p in h' + one_if (has_stopped p) ≡ h + one_if (has_stopped p')
unfolding stop_turn
turn-count n h running = omega arith
turn-count n h counted = ground arith
turn-count n h asleep = refl
turn-count n h rebooting = refl

turn-last :
    (n h : ℕ) (p : Phase)
    → let (h', p') = stop_turn n h p in h' ≡ n → (may_reboot p' ≡ true) ⊎ ((h' ≡ h) × (p' ≡ p))
unfolding stop_turn
turn-last n h running e = inl refl
turn-last n h counted e = ground arith
turn-last n h asleep e = inr (refl, refl)
turn-last n h rebooting e = inl refl

turn-reboots :
    (n h : ℕ) (p : Phase)
    → (reboots p ≡ true → n ≤ h)
    → let (h', p') = stop_turn n h p in (h ≤ h') × (reboots p' ≡ true → n ≤ h')
unfolding stop_turn
turn-reboots n h running old = (omega arith, λ e. absurd (ground arith))
turn-reboots n h counted old = ground arith
turn-reboots n h asleep old = (omega arith, λ e. absurd (ground arith))
turn-reboots n h rebooting old = (omega arith, old)

put_own :
    (phase : ℕ → Phase) (i : ℕ) (p : Phase) (j : ℕ) → p ≡ phase i → put_phase phase i p j ≡ phase j
put_own phase i p j own = elim (Bool-cases (j == i)) [
  | inl here ↦ rw here (own ∙ ap phase (sym ((==_iff j i).0 here)))
  | inr other ↦ rw other refl
]

record IsCounted (n : ℕ) (s : Stopping) : Type 0 where
  count : s.cpus_halted ≡ stopped_cnt n s.phase
  last : s.cpus_halted ≡ n → (i : ℕ) × (i < n) × (may_reboot (s.phase i) ≡ true)
  all : (i : ℕ) → reboots (s.phase i) ≡ true → n ≤ s.cpus_halted

stop_step-IsCounted :
    (n i : ℕ) (s : Stopping) → i < n → IsCounted n s → IsCounted n (stop_step n i s)
unfolding stop_step
stop_step-IsCounted n i s inside v =
    let h' = (stop_turn n s.cpus_halted (s.phase i)).0 in
    let p' = (stop_turn n s.cpus_halted (s.phase i)).1 in
    let lt : ltb i n ≡ true = ground arith in
    let self : (i == i) ≡ true = ground arith in
    let update : stopped_cnt n (put_phase s.phase i p') + one_if (has_stopped (s.phase i))
        ≡ stopped_cnt n s.phase + one_if (has_stopped p') =
      rw lt at (stopped_cnt-put n i s.phase p') in
    let (grows, own) = turn-reboots n s.cpus_halted (s.phase i) (v.all i) in
    record {
      count = omega (arith, v.count, turn-count n s.cpus_halted (s.phase i));
      last = λ e. elim (turn-last n s.cpus_halted (s.phase i) e) [
        | inl active ↦ (i, inside, rw self active)
        | inr (same, stays) ↦
            let (j, below, active) = v.last (sym same ∙ e) in
            (j, below, rw (put_own s.phase i p' j stays) active)
      ];
      all = λ j r. elim (Bool-cases (j == i)) [
        | inl here ↦ own (rw here at r)
        | inr other ↦ omega (arith, v.all j (rw other at r))
      ];
    }

not_running-cnt : (n : ℕ) → stopped_cnt n (λ i. running) ≡ 0
not_running-cnt zero = refl
not_running-cnt (suc n) = omega (arith, not_running-cnt n)

Stops-IsCounted : (n : ℕ) {s : Stopping} → 0 < n → Stops n s → IsCounted n s
Stops-IsCounted n some_cpu none_stopped = record {
  count = sym (not_running-cnt n);
  last = λ e. absurd (omega arith);
  all = λ i r. absurd (ground arith);
}
Stops-IsCounted n some_cpu (then_step {s} i inside r) =
    stop_step-IsCounted n i s inside (Stops-IsCounted n some_cpu r)

-- A processor reboots only after every one that is online has called `stop`.
pub reboots-all_stopped :
    {s : Stopping} (n i j : ℕ)
    → 0 < n
    → Stops n s
    → reboots (s.phase i) ≡ true
    → j < n
    → has_stopped (s.phase j) ≡ true
reboots-all_stopped {s} n i j some_cpu r at inside =
    let v = Stops-IsCounted n some_cpu r in
    stopped_cnt-all n j s.phase (omega (arith, v.all i at, v.count, stopped_cnt-le n s.phase))
      inside

-- At the end of `stop`: asleep or in `reboot`.
abbrev pub is_done : Phase → Bool
is_done asleep = true
is_done rebooting = true
is_done _ = false

done_stopped : (p : Phase) → is_done p ≡ true → has_stopped p ≡ true
done_stopped running e = e
done_stopped counted e = refl
done_stopped asleep e = refl
done_stopped rebooting e = refl

done_reboots : (p : Phase) → is_done p ≡ true → may_reboot p ≡ true → reboots p ≡ true
done_reboots running e e' = e
done_reboots counted e e' = e
done_reboots asleep e e' = e'
done_reboots rebooting e e' = refl

all_done-cnt :
    (n : ℕ) (phase : ℕ → Phase)
    → ((i : ℕ) → i < n → is_done (phase i) ≡ true)
    → stopped_cnt n phase ≡ n
all_done-cnt zero phase done = refl
all_done-cnt (suc n) phase done =
    let here = done_stopped (phase n) (done n (omega arith)) in
    rw here (omega (arith, all_done-cnt n phase (λ i h. done i (omega arith))))

-- Once all processors that are online have come to the end of `stop`, one of them is in `reboot`.
pub all_done-reboots :
    {s : Stopping} (n : ℕ)
    → 0 < n
    → Stops n s
    → ((i : ℕ) → i < n → is_done (s.phase i) ≡ true)
    → (i : ℕ) × (i < n) × (reboots (s.phase i) ≡ true)
all_done-reboots {s} n some_cpu r done =
    let v = Stops-IsCounted n some_cpu r in
    let (i, inside, active) = v.last (v.count ∙ all_done-cnt n s.phase done) in
    (i, inside, done_reboots (s.phase i) (done i inside) active)
