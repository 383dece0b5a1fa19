-- ===== src/Perfcount/Enable.antt =====
-- perfcount.c: which bit of which register enables a counter.
use smp_boot.Base.{
  ℕ, ◌%◌, ◌^◌, ◌<◌, ◌≡◌, inl, inr, arith, Bool, true, false, not, ◌&&◌, ◌||◌, ◌==◌, ltb, leb,
  Bool-cases, ==_iff, testbit,
}
use smp_boot.Clib.Masks.{mask_set, mask_clear, testbit-mask_set, testbit-mask_clear}
use smp_boot.Perfcount.{
  Counters, perfevtsel, start_nehalem, stop_nehalem, perfcount_start, perfcount_stop, wrmsr,
}

-- Bit `k` of register `i` is the one that enables a counter, of those that are accepted.
abbrev pub enables : Counters → ℕ → ℕ → ℕ → Bool
enables s counter i k =
    s.initialised && ltb (counter % 2 ^ 8) 3 && i == perfevtsel (counter % 2 ^ 8) && 22 == k

-- One write to a register, bit by bit.
wrmsr-set :
    (s : Counters) (reg i k : ℕ)
    → testbit ((wrmsr reg (mask_set (s.msr reg) (2 ^ 22)) s).msr i) k
      ≡ (testbit (s.msr i) k || (i == reg && 22 == k))
unfolding wrmsr
wrmsr-set s reg i k = elim (Bool-cases (i == reg)) [
  | inl here ↦
      let e : i ≡ reg = (==_iff i reg).0 here in rw (here, e) (testbit-mask_set k 22 (s.msr reg))
  | inr other ↦ rw other (ground arith)
]

wrmsr-clear :
    (s : Counters) (reg i k : ℕ)
    → k < 64
    → testbit ((wrmsr reg (mask_clear 64 (s.msr reg) (2 ^ 22)) s).msr i) k
      ≡ (testbit (s.msr i) k && not (i == reg && 22 == k))
unfolding wrmsr
wrmsr-clear s reg i k small = elim (Bool-cases (i == reg)) [
  | inl here ↦
      let e : i ≡ reg = (==_iff i reg).0 here in
      rw (here, e) (testbit-mask_clear k 64 22 (s.msr reg) small (omega arith))
  | inr other ↦ rw other (ground arith)
]

perfcount_start-testbit :
    (s : Counters) (counter i k : ℕ)
    → testbit ((perfcount_start counter s).msr i) k ≡ (testbit (s.msr i) k || enables s counter i k)
unfolding perfcount_start start_nehalem
perfcount_start-testbit s counter i k = elim (Bool-cases s.initialised) [
  | inl ready ↦ elim (Bool-cases (leb 3 (counter % 2 ^ 8))) [
    | inl refused ↦
        let out : ltb (counter % 2 ^ 8) 3 ≡ false = ground arith in
        rw (ready, refused, out) (ground arith)
    | inr accepted ↦
        let inside : ltb (counter % 2 ^ 8) 3 ≡ true = ground arith in
        rw (ready, accepted, inside) (wrmsr-set s (perfevtsel (counter % 2 ^ 8)) i k)
  ]
  | inr not_ready ↦ rw not_ready (ground arith)
]

perfcount_stop-testbit :
    (s : Counters) (counter i k : ℕ)
    → k < 64
    → testbit ((perfcount_stop counter s).msr i) k
      ≡ (testbit (s.msr i) k && not (enables s counter i k))
unfolding perfcount_stop stop_nehalem
perfcount_stop-testbit s counter i k small = elim (Bool-cases s.initialised) [
  | inl ready ↦ elim (Bool-cases (leb 3 (counter % 2 ^ 8))) [
    | inl refused ↦
        let out : ltb (counter % 2 ^ 8) 3 ≡ false = ground arith in
        rw (ready, refused, out) (ground arith)
    | inr accepted ↦
        let inside : ltb (counter % 2 ^ 8) 3 ≡ true = ground arith in
        rw (ready, accepted, inside) (wrmsr-clear s (perfevtsel (counter % 2 ^ 8)) i k small)
  ]
  | inr not_ready ↦ rw not_ready (ground arith)
]

-- `perfcount_start` sets and `perfcount_stop` clears one bit, bit 22 of the select register of the
-- counter, and no other bit of any register. They do so once `perfcount_init` has set the function
-- pointers, and if the low byte of the counter is below 3; else they change nothing.
pub perfcount-enables :
    (s : Counters) (counter i k : ℕ)
    → k < 64
    → (testbit ((perfcount_start counter s).msr i) k
        ≡ (testbit (s.msr i) k || enables s counter i k))
      × (testbit ((perfcount_stop counter s).msr i) k
          ≡ (testbit (s.msr i) k && not (enables s counter i k)))
perfcount-enables s counter i k small =
    (perfcount_start-testbit s counter i k, perfcount_stop-testbit s counter i k small)
