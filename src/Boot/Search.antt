-- ===== src/Boot/Search.antt =====
-- boot32.c: checksums and the search for table signatures.
use smp_boot.Base.{
  ℕ, zero, suc, ◌+◌, ◌*◌, ◌/◌, ◌%◌, ◌^◌, ◌<◌, ◌≡◌, ◌⊎◌, refl, Bool, true, false, arith, Bool-cases,
  inl, inr,
}
use smp_boot.Boot.{
  Bytes, sum_bytes, check_sum, search_words, is_rsdp, is_fp, search_rsdp, search_fp,
}

-- The sum of the bytes of a block, without wrap.
abbrev pub total : Bytes → ℕ → ℕ → ℕ
total mem a zero = 0
total mem a (suc n) = mem a + total mem (a + 1) n

sum_bytes-total :
    (n : ℕ) (mem : Bytes) (a sum : ℕ)
    → sum < 2 ^ 8
    → sum_bytes mem a n sum ≡ (sum + total mem a n) % 2 ^ 8
unfolding sum_bytes
sum_bytes-total zero mem a sum h = omega arith
sum_bytes-total (suc n) mem a sum h =
    omega (arith, sum_bytes-total n mem (a + 1) ((sum + mem a) % 2 ^ 8) (omega arith))

-- `check_sum` is 0 exactly if the bytes of the block add up to a multiple of 256.
pub check_sum-total :
    (mem : Bytes) (hdr length : ℕ) → check_sum mem hdr length ≡ total mem hdr length % 2 ^ 8
unfolding check_sum
check_sum-total mem hdr length = omega (arith, sum_bytes-total length mem hdr 0 (omega arith))

-- What a search over `n` words from address `a` on may return: the address of the first word that
-- passes the test, or 0 where none does.
abbrev pub Found : (ℕ → Bool) → ℕ → ℕ → ℕ → Type 0
Found test a n r =
    ((r ≡ 0) × ((k : ℕ) → k < n → test (a + k * 4) ≡ false))
    ⊎ ((i : ℕ) × (i < n)
        × (r ≡ a + i * 4)
        × (test r ≡ true)
        × ((k : ℕ) → k < i → test (a + k * 4) ≡ false))

earlier :
    (test : ℕ → Bool) (a i : ℕ)
    → test a ≡ false
    → ((k : ℕ) → k < i → test (a + 4 + k * 4) ≡ false)
    → (k : ℕ) → k < suc i
    → test (a + k * 4) ≡ false
earlier test a i here later zero h = let same : a + 0 * 4 ≡ a = omega arith in rw same here
earlier test a i here later (suc k) h =
    let same : a + suc k * 4 ≡ a + 4 + k * 4 = omega arith in rw same (later k (omega arith))

search_words-Found : (n : ℕ) (test : ℕ → Bool) (a : ℕ) → Found test a n (search_words test a n)
unfolding search_words
search_words-Found zero test a = inl (refl, λ k h. absurd (omega arith))
search_words-Found (suc n) test a = elim (Bool-cases (test a)) [
  | inl here ↦ rw here (inr (0, omega arith, omega arith, here, λ k h. absurd (omega arith)))
  | inr not_here ↦ rw not_here (elim (search_words-Found n test (a + 4)) [
    | inl (e, none_there) ↦ inl (e, earlier test a n not_here none_there)
    | inr (i, lt, e, hit, before) ↦
        inr (suc i, omega arith, omega arith, hit, earlier test a i not_here before)
  ])
]

-- `search_rsdp` returns the first address in the block, in steps of four bytes, at which both words
-- of "RSD PTR " stand, and 0 if there is none; `search_fp` does so for "_MP_".
pub search-Found :
    (mem : Bytes) (offset size : ℕ)
    → Found (is_rsdp mem) offset (size / 4) (search_rsdp mem offset size)
      × Found (is_fp mem) offset (size / 4) (search_fp mem offset size)
unfolding search_rsdp search_fp
search-Found mem offset size = (
  search_words-Found (size / 4) (is_rsdp mem) offset,
  search_words-Found (size / 4) (is_fp mem) offset,
)
