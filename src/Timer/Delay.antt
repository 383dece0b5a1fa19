-- ===== src/Timer/Delay.antt =====
-- time.c: `udelay` returns, and not too early.
use smp_boot.Base.{
  ℕ, zero, suc, ◌+◌, ◌-◌, ◌*◌, ◌%◌, ◌^◌, ◌≤◌, ◌<◌, ◌≡◌, refl, ◌⊎◌, inl, inr, arith, true, ltb,
  ltb→lt, Bool-cases, some,
}
use native.Mathlib.Nat.{mod-eq_of_lt}
use smp_boot.Timer.{delay_loop, udelay}

-- A counter that runs on from reading to reading.
abbrev pub IsCounter : (ℕ → ℕ) → Type 0
IsCounter tsc = (k : ℕ) → tsc k < tsc (suc k)

-- Reading `n` is the first one, from `k` on, at or behind `tsc_end`.
abbrev pub First : (ℕ → ℕ) → ℕ → ℕ → ℕ → Type 0
First tsc tsc_end k n = (k ≤ n) × (tsc_end ≤ tsc n) × ((n ≡ k) ⊎ (tsc (n - 1) < tsc_end))

pub First-before :
    (tsc : ℕ → ℕ) (tsc_end k n : ℕ)
    → ltb (tsc k) tsc_end ≡ true
    → First tsc tsc_end (suc k) n
    → First tsc tsc_end k n
First-before tsc tsc_end k n early (from, late, inl first) =
    let before : n - 1 ≡ k = omega arith in
    (omega arith, late, inr (rw before (ltb→lt (tsc k) tsc_end early)))
First-before tsc tsc_end k n early (from, late, inr later) = (omega arith, late, inr later)

delay_loop-First :
    (fuel k tsc_end : ℕ) (tsc : ℕ → ℕ)
    → IsCounter tsc
    → tsc_end - tsc k < fuel
    → (n : ℕ) × (delay_loop fuel tsc tsc_end k ≡ some n) × First tsc tsc_end k n
unfolding delay_loop
delay_loop-First zero k tsc_end tsc on room = absurd (omega arith)
delay_loop-First (suc fuel) k tsc_end tsc on room = elim (Bool-cases (ltb (tsc k) tsc_end)) [
  | inl early ↦
      let lt = ltb→lt (tsc k) tsc_end early in
      let (n, ends, after) = delay_loop-First fuel (suc k) tsc_end tsc on (omega (arith, on k)) in
      (n, rw early ends, First-before tsc tsc_end k n early after)
  | inr late ↦ (k, rw late refl, (omega arith, ground arith, inl refl))
]

-- Where the ticks to wait fit in an unsigned long, of 32 or 64 bits, the end fits in 64 bits, and
-- every reading of the counter is above the one before, `udelay` returns, with any fuel above the
-- number of ticks to wait. Its last reading is at least that many ticks behind the first, and the
-- one before it is not.
pub udelay-First :
    (w fuel tsc_per_usec us : ℕ) (tsc : ℕ → ℕ)
    → IsCounter tsc
    → us * tsc_per_usec < 2 ^ w
    → tsc 0 + us * tsc_per_usec < 2 ^ 64
    → us * tsc_per_usec < fuel
    → (n : ℕ) × (udelay w fuel tsc tsc_per_usec us ≡ some n)
      × First tsc (tsc 0 + us * tsc_per_usec) 0 n
unfolding udelay
udelay-First w fuel rate us tsc on product fits room =
    let whole : us * rate % 2 ^ w ≡ us * rate = mod-eq_of_lt {n = us * rate} {m = 2 ^ w} product in
    let end : (tsc 0 + us * rate) % 2 ^ 64 ≡ tsc 0 + us * rate = omega arith in
    rw (whole, end) (delay_loop-First fuel 0 (tsc 0 + us * rate) tsc on (omega arith))
