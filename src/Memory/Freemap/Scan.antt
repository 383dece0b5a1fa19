-- ===== src/Memory/Freemap/Scan.antt =====
-- mm.c: what `get_free_frame` returns, when it halts, and that no frame is given out twice.
use smp_boot.Base.{
  ℕ, zero, suc, ◌+◌, ◌^◌, ◌≤◌, ◌<◌, ◌≡◌, refl, Bool, true, false, not, Option, none, some, ◌==◌,
  leb, if◌then◌else◌, arith, Bool-cases, inl, inr, ap,
}
use native.Mathlib.Nat.{mod-lt}
use native.Mathlib.Decide.{dec_le}
use smp_boot.Clib.Masks.{
  mask_clear, is_mask_set, is_mask_clear, is_mask_clear-mask_clear, is_mask_clear-mask_clear_other,
}
use smp_boot.Memory.Freemap.{
  Freemap, max_frames, frame_type_4k, frame_to_freemap_index, frame_to_freemap_bit, is_free,
  take_frame, scan,
}

-- What the code relies on of `1 << b`: for a bit of the word its value is a word.
pub record IsShift (w : ℕ) (one_shl : ℕ → ℕ) : Type 0 where
  pub positive : 0 < w
  pub fits : (b : ℕ) → b < w → one_shl b < 2 ^ w

-- Between two calls both static variables name a frame of the supported memory.
pub record IsValid (m : Freemap) : Type 0 where
  pub pt_in : m.last_frame_pt < max_frames
  pub small_in : m.last_frame_4k < max_frames

set-eq-not-clear : (var mask : ℕ) → is_mask_set var mask ≡ not (is_mask_clear var mask)
unfolding is_mask_set is_mask_clear
set-eq-not-clear var mask = refl

module _ {w : ℕ} {one_shl : ℕ → ℕ} (shift : IsShift w one_shl) where
  abbrev free : (ℕ → ℕ) → ℕ → Bool
  free = is_free w one_shl

  bit-lt : (f : ℕ) → frame_to_freemap_bit w one_shl f < w
  bit-lt f = omega (arith, mod-lt f shift.positive)

  pub is_free-take_frame_self :
      (words : ℕ → ℕ) (f : ℕ) → free (take_frame w one_shl words f) f ≡ false
  unfolding is_free take_frame
  is_free-take_frame_self words f =
      let mask = one_shl (frame_to_freemap_bit w one_shl f) in
      let word = words (frame_to_freemap_index w one_shl f) in
      ground (
        arith,
        set-eq-not-clear (mask_clear w word mask) mask,
        is_mask_clear-mask_clear w word mask (shift.fits _ (bit-lt f)),
      )

  -- Taking a frame frees no other.
  pub is_free-take_frame :
      (words : ℕ → ℕ) (f g : ℕ) → free (take_frame w one_shl words f) g ≡ true → free words g ≡ true
  unfolding is_free take_frame
  is_free-take_frame words f g h =
      let mask = one_shl (frame_to_freemap_bit w one_shl f) in
      let other = one_shl (frame_to_freemap_bit w one_shl g) in
      let word = words (frame_to_freemap_index w one_shl f) in
      ground (
        arith,
        set-eq-not-clear (mask_clear w word mask) other,
        set-eq-not-clear word other,
        is_mask_clear-mask_clear_other w word mask other,
        ap words {x = frame_to_freemap_index w one_shl f} {y = frame_to_freemap_index w one_shl g},
      )

  -- What the loop of `get_free_frame` finds from a frame on: the first free one, if there is one.
  abbrev pub First : (ℕ → ℕ) → ℕ → Option ℕ → Type 0
  First words last none = (g : ℕ) → last ≤ g → g < max_frames → free words g ≡ false
  First words last (some f) =
      (last ≤ f)
      × (f < max_frames)
      × (free words f ≡ true)
      × ((g : ℕ) → last ≤ g → g < f → free words g ≡ false)

  First-step :
      (words : ℕ → ℕ) (last : ℕ)
      → free words last ≡ false
      → (o : Option ℕ) → First words (last + 1) o
      → First words last o
  First-step words last clear none later = λ g lo hi. elim (dec_le (last + 1) g) [
    | yes above ↦ later g above hi
    | no here ↦ let same : g ≡ last = omega arith in rw same clear
  ]
  First-step words last clear (some f) (lo, hi, set, before) = (
    omega arith,
    hi,
    set,
    λ g glo ghi. elim (dec_le (last + 1) g) [
      | yes above ↦ before g above ghi
      | no here ↦ let same : g ≡ last = omega arith in rw same clear
    ],
  )

  -- The fuel that `get_free_frame` gives its loop is enough: the loop halts only if no frame from
  -- `last` on is free.
  pub scan-First :
      (fuel : ℕ) (words : ℕ → ℕ) (last : ℕ)
      → last + fuel ≡ max_frames
      → First words last (scan w one_shl fuel words last)
  unfolding scan
  scan-First zero words last e = λ g lo hi. absurd (omega arith)
  scan-First (suc fuel) words last e = elim (Bool-cases (free words last)) [
    | inl set ↦ rw set (omega arith, omega arith, set, λ g lo hi. absurd (omega arith))
    | inr clear ↦ rw clear (elim (Bool-cases (leb max_frames (last + 1))) [
      | inl full ↦ rw full (λ g lo hi.
          let end : max_frames ≤ last + 1 = ground arith in
          let same : g ≡ last = omega arith in rw same clear)
      | inr more ↦
          rw more (First-step words last clear _ (scan-First fuel words (last + 1) (omega arith)))
    ])
  ]

  -- Where the search for a frame of a type begins.
  abbrev pub start : ℕ → Freemap → ℕ
  start type m = if type == frame_type_4k then m.last_frame_4k else m.last_frame_pt

  pub record Granted (type : ℕ) (m : Freemap) (f : ℕ) (m' : Freemap) : Type 0 where
    pub from_start : start type m ≤ f
    pub in_memory : f < max_frames
    pub was_free : free m.words f ≡ true
    pub first : (g : ℕ) → start type m ≤ g → g < f → free m.words g ≡ false
    pub taken : free m'.words f ≡ false
    pub others : (g : ℕ) → free m'.words g ≡ true → free m.words g ≡ true
    pub moved : start type m' ≡ f
    pub valid : IsValid m'

  -- What `get_free_frame` may do with a supported type.
  abbrev pub Grants : ℕ → Freemap → Option (ℕ × Freemap) → Type 0
  Grants type m none = (g : ℕ) → start type m ≤ g → g < max_frames → free m.words g ≡ false
  Grants type m (some (f, m')) = Granted type m f m'
