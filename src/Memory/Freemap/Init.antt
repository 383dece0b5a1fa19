-- ===== src/Memory/Freemap/Init.antt =====
-- mm.c: which frames `mm_init` registers as free.
use smp_boot.Base.{
  ℕ, ◌+◌, ◌-◌, ◌/◌, ◌%◌, ◌^◌, ◌<◌, ◌≡◌, Bool, false, ◌&&◌, ◌||◌, List, [], ◌∷◌, ◌==◌, ltb, leb,
  if◌then◌else◌,
}
use mathlib.Core.Option
use smp_boot.Clib.Masks.{is_mask_set}
use smp_boot.Memory.Freemap.{Freemap, Region, BootInfo, register_upper, upper_limit}

-- The value of `1 << b` where it is `2 ^ b` for each bit of a word: the 32-bit build.
pub record IsExact (w : ℕ) (one_shl : ℕ → ℕ) : Type 0 where
  pub positive : 0 < w
  pub exact : (b : ℕ) → b < w → one_shl b ≡ 2 ^ b

abbrev region_first : Region → ℕ
region_first r = r.addr / 4096 % 2 ^ 32

abbrev region_end : Region → ℕ
region_end r = (r.addr + r.len) % 2 ^ 64 / 4096

-- 2 GB in frames of 4 kB
abbrev pub supported_frames : ℕ
supported_frames = 0x80000

-- A frame of an available region, in the range that `mm_init` registers.
abbrev pub in_region : Region → ℕ → Bool
in_region r g =
    (r.kind == 1)
    && leb (r.addr / 4096 % 2 ^ 32) g
    && ltb g ((r.addr + r.len) % 2 ^ 64 / 4096)
    && leb 0x400 g
    && ltb g supported_frames

abbrev pub in_regions : List Region → ℕ → Bool
in_regions [] g = false
in_regions (r ∷ rs) g = in_region r g || in_regions rs g

-- What the boot loader's information says of a frame. The frames of the upper memory are counted
-- from address 0 here, as in `mm_init`, although `mem_upper` counts the kB from 1 MB on.
abbrev pub registered : BootInfo → ℕ → Bool
registered mbi g =
    (is_mask_set mbi.flags (2 ^ 0)
      && leb 0x400 g
      && ltb g (mbi.mem_upper / 4)
      && ltb g supported_frames)
    || (is_mask_set mbi.flags (2 ^ 6) && in_regions mbi.mmap g)

module _ {w : ℕ} {one_shl : ℕ → ℕ} (shift : IsExact w one_shl) where
  abbrev upper_part : BootInfo → (ℕ → ℕ) × ℕ
  upper_part mbi =
      if is_mask_set mbi.flags (2 ^ 0)
      then register_upper w one_shl (upper_limit mbi - 0x400) 0x400 (λ i. 0, 0)
      else (λ i. 0, 0)
