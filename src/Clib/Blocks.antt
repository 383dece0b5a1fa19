-- ===== src/Clib/Blocks.antt =====
-- lib.c: `memcpy`, `memset` and `memsetw` on a memory of cells of one size, with the counts in
-- cells. A count is not negative here.
use smp_boot.Base.{
  ℕ, zero, suc, ◌+◌, ◌-◌, ◌≤◌, ◌≡◌, Bool, ◌&&◌, ◌==◌, leb, ltb, if◌then◌else◌, arith, ap,
}

abbrev pub Cells : Type 0
Cells = ℕ → ℕ

abbrev pub store : Cells → ℕ → ℕ → Cells
store mem adr v = λ a. if a == adr then v else mem a

-- `for (; count != 0; count--) *dp++ = *sp++;`
unfoldable pub memcpy : Cells → ℕ → ℕ → ℕ → Cells
memcpy mem dest src zero = mem
memcpy mem dest src (suc count) = memcpy (store mem dest (mem src)) (dest + 1) (src + 1) count

-- `memset` and `memsetw`
unfoldable pub memset : Cells → ℕ → ℕ → ℕ → Cells
memset mem dest val zero = mem
memset mem dest val (suc count) = memset (store mem dest val) (dest + 1) val count

abbrev pub inside : ℕ → ℕ → ℕ → Bool
inside first count a = leb first a && ltb a (first + count)

pub memset_lem :
    (count : ℕ) (mem : Cells) (dest val a : ℕ)
    → memset mem dest val count a ≡ (if inside dest count a then val else mem a)
unfolding memset
memset_lem zero mem dest val a = ground arith
memset_lem (suc count) mem dest val a =
    ground (arith, memset_lem count (store mem dest val) (dest + 1) val a)

-- `memcpy` copies upwards: a block that it moves down, or not at all, arrives whole, even where
-- the two overlap.
pub memcpy_down :
    (count : ℕ) (mem : Cells) (dest src a : ℕ)
    → dest ≤ src
    → memcpy mem dest src count a ≡ (if inside dest count a then mem (a - dest + src) else mem a)
unfolding memcpy
memcpy_down zero mem dest src a h = ground arith
memcpy_down (suc count) mem dest src a h = ground (
  arith,
  memcpy_down count (store mem dest (mem src)) (dest + 1) (src + 1) a,
  ap mem {x = a - (dest + 1) + (src + 1)} {y = a - dest + src},
  ap mem {x = src} {y = a - dest + src},
)
