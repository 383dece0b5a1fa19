-- ===== src/Bench/Summary.antt =====
-- benchmark.c: what `hourglass` and `worker` say of the gaps.
use smp_boot.Base.{
  ℕ, zero, suc, ◌+◌, ◌-◌, ◌*◌, ◌%◌, ◌^◌, ◌<◌, min, max, ◌≡◌, refl, ◌∙◌, ap, inl, inr, arith, ◌==◌,
  ltb, ltb→lt, if◌then◌else◌, Bool-cases, ==_iff, some, List, [], ◌∷◌, length,
}
use smp_boot.Bench.{Gaps, note_gap, gap, gap_loop, end_of, measure}
use smp_boot.Timer.Delay.{First, First-before}

-- A counter of which each reading is above the one before, and by less than 2^62.
abbrev pub IsClock : (ℕ → ℕ) → Type 0
IsClock tsc = (k : ℕ) → (tsc k < tsc (suc k)) × (tsc (suc k) < tsc k + 2 ^ 62)

-- The gaps behind reading `k`.
abbrev pub gaps_from : (ℕ → ℕ) → ℕ → ℕ → List ℕ
gaps_from tsc k zero = []
gaps_from tsc k (suc n) = (tsc (suc k) - tsc k) ∷ gaps_from tsc (suc k) n

abbrev pub least_of : ℕ → List ℕ → ℕ
least_of m [] = m
least_of m (d ∷ ds) = least_of (min m d) ds

abbrev pub greatest_of : ℕ → List ℕ → ℕ
greatest_of m [] = m
greatest_of m (d ∷ ds) = greatest_of (max m d) ds

abbrev pub sum_of : List ℕ → ℕ
sum_of [] = 0
sum_of (d ∷ ds) = d + sum_of ds

-- The numbers that a list of gaps adds to others.
abbrev pub summary : Gaps → List ℕ → Gaps
summary g l = record {
  least = least_of g.least l;
  greatest = greatest_of g.greatest l;
  cnt = g.cnt + length l;
}

note_gap-summary : (d : ℕ) (g : Gaps) (l : List ℕ) → summary (note_gap d g) l ≡ summary g (d ∷ l)
unfolding note_gap
note_gap-summary d g l =
    let low : (if ltb d g.least then d else g.least) ≡ min g.least d = ground arith in
    let high : (if ltb g.greatest d then d else g.greatest) ≡ max g.greatest d = ground arith in
    let more : g.cnt + 1 + length l ≡ g.cnt + suc (length l) = omega arith in
    rw (low, high, more) refl

summary-nil : (g : Gaps) → g ≡ summary g []
summary-nil g = let same : g.cnt + 0 ≡ g.cnt = omega arith in rw same refl

gap-difference : (tsc : ℕ → ℕ) (k : ℕ) → IsClock tsc → gap tsc k ≡ tsc (suc k) - tsc k
gap-difference tsc k clock = let (on, near) = clock k in omega arith

gap_loop-summary :
    (fuel k tsc_end : ℕ) (tsc : ℕ → ℕ) (g : Gaps)
    → IsClock tsc
    → tsc_end - tsc k < fuel
    → (n : ℕ) × (gap_loop fuel tsc tsc_end k g ≡ some (n, summary g (gaps_from tsc k (n - k))))
      × First tsc tsc_end k n
unfolding gap_loop
gap_loop-summary zero k tsc_end tsc g clock room = absurd (omega arith)
gap_loop-summary (suc fuel) k tsc_end tsc g clock room = elim (Bool-cases (ltb (tsc k) tsc_end)) [
  | inl early ↦
      let lt = ltb→lt (tsc k) tsc_end early in
      let on = (clock k).0 in
      let (n, ends, after) =
        gap_loop-summary fuel (suc k) tsc_end tsc (note_gap (gap tsc k) g) clock (omega arith) in
      let same = gap-difference tsc k clock in
      let from = after.0 in
      let rounds : n - k ≡ suc (n - suc k) = omega arith in
      let all = note_gap-summary (gap tsc k) g (gaps_from tsc (suc k) (n - suc k)) in
      (
        n,
        rw (early, rounds)
            (ends
              ∙ ap (λ s. some (n, s)) all
              ∙ ap (λ d. some (n, summary g (d ∷ gaps_from tsc (suc k) (n - suc k)))) same),
        First-before tsc tsc_end k n early after,
      )
  | inr late ↦
      let none_left : k - k ≡ 0 = omega arith in
      (
        k,
        rw (late, none_left) (ap (λ s. some (k, s)) (summary-nil g)),
        (omega arith, ground arith, inl refl),
      )
]

-- The gaps add up to the time between the readings.
pub sum-gaps_from :
    (n k : ℕ) (tsc : ℕ → ℕ) → IsClock tsc → tsc k + sum_of (gaps_from tsc k n) ≡ tsc (k + n)
sum-gaps_from zero k tsc clock = let same : k + 0 ≡ k = omega arith in rw same (omega arith)
sum-gaps_from (suc n) k tsc clock =
    let next : k + suc n ≡ suc k + n = omega arith in
    let on = (clock k).0 in rw next (omega (arith, sum-gaps_from n (suc k) tsc clock))

pub length-gaps_from : (n k : ℕ) (tsc : ℕ → ℕ) → length (gaps_from tsc k n) ≡ n
length-gaps_from zero k tsc = refl
length-gaps_from (suc n) k tsc = omega (arith, length-gaps_from n (suc k) tsc)

abbrev pub blank : ℕ → Gaps
blank lowest = record { least = lowest; greatest = 0; cnt = 0 }

-- A first reading behind the begin, of a counter that has not come far behind the end.
pub First-elapsed :
    (tsc : ℕ → ℕ) (tsc_end k n : ℕ)
    → IsClock tsc
    → First tsc tsc_end k n
    → tsc k < tsc_end
    → (k < n) × (tsc n < tsc_end + 2 ^ 62)
First-elapsed tsc tsc_end k n clock (from, late, inl first) some_time =
    let own = ap tsc first in absurd (omega arith)
First-elapsed tsc tsc_end k zero clock (from, late, inr before) some_time = absurd (omega arith)
First-elapsed tsc tsc_end k (suc n) clock (from, late, inr before) some_time =
    let (on, near) = clock n in
    let last : suc n - 1 ≡ n = omega arith in
    let before' : tsc n < tsc_end = rw last at before in
    elim (Bool-cases (suc n == k)) [
      | inl own ↦ let e = ap tsc ((==_iff (suc n) k).0 own) in absurd (omega arith)
      | inr other ↦ (ground arith, omega arith)
    ]

measure-gap_loop :
    (fuel rate sec lowest k tsc_end : ℕ) (tsc : ℕ → ℕ) (r : ℕ × Gaps)
    → end_of tsc k sec rate ≡ tsc_end
    → gap_loop fuel tsc tsc_end k (blank lowest) ≡ some r
    → measure fuel tsc rate sec lowest k ≡ some (r.0, r.1, (tsc r.0 + 2 ^ 64 - tsc k) % 2 ^ 64)
unfolding measure
measure-gap_loop fuel rate sec lowest k tsc_end tsc (n, g) end loop = rw (measure, end, loop) refl

-- A measurement from reading `k` on, of a time above 0.
pub measure-summary :
    (fuel rate sec lowest k : ℕ) (tsc : ℕ → ℕ)
    → IsClock tsc
    → 0 < sec * 1000000 * rate
    → tsc k + sec * 1000000 * rate < 2 ^ 64
    → sec * 1000000 * rate < 2 ^ 63
    → sec * 1000000 * rate < fuel
    → (n : ℕ) × (let l = gaps_from tsc k (n - k) in
        measure fuel tsc rate sec lowest k ≡ some (n, summary (blank lowest) l, sum_of l))
      × First tsc (tsc k + sec * 1000000 * rate) k n
      × (k < n)
measure-summary fuel rate sec lowest k tsc clock some_time fits short room =
    let tsc_end = tsc k + sec * 1000000 * rate in
    let no_wrap : end_of tsc k sec rate ≡ tsc_end = omega arith in
    let (n, ends, first) = gap_loop-summary fuel k tsc_end tsc (blank lowest) clock (omega arith) in
    let (from, near) = First-elapsed tsc tsc_end k n clock first (omega arith) in
    let l = gaps_from tsc k (n - k) in
    let many = length-gaps_from (n - k) k tsc in
    let whole : k + (n - k) ≡ n = omega arith in
    let sum : tsc k + sum_of l ≡ tsc n = sum-gaps_from (n - k) k tsc clock ∙ ap tsc whole in
    let elapsed : (tsc n + 2 ^ 64 - tsc k) % 2 ^ 64 ≡ sum_of l = omega arith in
    let result =
      measure-gap_loop fuel rate sec lowest k tsc_end tsc (n, summary (blank lowest) l) no_wrap
        ends in
    (n, result ∙ rw elapsed refl, first, from)
