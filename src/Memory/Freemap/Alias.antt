-- ===== src/Memory/Freemap/Alias.antt =====
-- mm.c in the 64-bit build: `1 << bit` is a shift of a 32-bit `int`, so `bit` goes up to 63 where
-- the shift has only 32 distinct results.
use smp_boot.Base.{ℕ, ◌+◌, ◌%◌, ◌^◌, ◌<◌, ◌≡◌, false, some, arith, ◌∙◌}
use smp_boot.Memory.Freemap.{
  Freemap, frame_to_freemap_index, frame_to_freemap_bit, is_free, get_free_frame,
}
use smp_boot.Memory.Freemap.Scan.{IsShift, IsValid}
use smp_boot.Memory.Freemap.Grants.{get_free_frame-Gives}

-- The shift instructions of x86 take the count of a 32-bit shift modulo 32.
pub record IsX86Shift (one_shl : ℕ → ℕ) : Type 0 where
  pub masked : (b : ℕ) → one_shl (b + 32) ≡ one_shl b

module _ {one_shl : ℕ → ℕ} (x86 : IsX86Shift one_shl) where
  -- Two frames 32 apart in one word of the bitmap share their bit.
  pub is_free-alias :
      (words : ℕ → ℕ) (f : ℕ)
      → f < 2 ^ 32
      → f % 64 < 32
      → is_free 64 one_shl words (f + 32) ≡ is_free 64 one_shl words f
  unfolding is_free
  is_free-alias words f hf low =
      let word : frame_to_freemap_index 64 one_shl (f + 32) ≡ frame_to_freemap_index 64 one_shl f =
        omega arith in
      let bit : frame_to_freemap_bit 64 one_shl (f + 32) ≡ frame_to_freemap_bit 64 one_shl f + 32 =
        omega arith in
      rw (word, bit, x86.masked (frame_to_freemap_bit 64 one_shl f))

  -- When the 64-bit build, with a valid bitmap, gives out a frame whose bit is in the lower half of
  -- its bitmap word, the frame 32 above it is not free any more.
  pub get_free_frame-loses_partner :
      (shift : IsShift 64 one_shl) (type : ℕ) (m : Freemap) {f : ℕ} {m' : Freemap}
      → IsValid m
      → get_free_frame 64 one_shl type m ≡ some (f, m')
      → f % 64 < 32
      → is_free 64 one_shl m'.words (f + 32) ≡ false
  get_free_frame-loses_partner shift type m {f} {m'} v e low =
      let (set, taken, others, inside, v') = get_free_frame-Gives shift type m v e in
      is_free-alias m'.words f (omega arith) low ∙ taken
