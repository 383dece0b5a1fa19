-- ===== src/Memory/Freemap.antt =====
-- mm.c: the bitmap of free page frames, `get_free_frame`, and the part of `mm_init` that fills it.
pub mod Alias
pub mod Scan
pub mod Init
pub mod Grants
use smp_boot.Base.{
  ℕ, zero, suc, ◌+◌, ◌-◌, ◌*◌, ◌/◌, ◌%◌, ◌^◌, ◌<◌, Bool, true, false, ◌&&◌, Option, none, some,
  List, [], ◌∷◌, ◌==◌, ltb, leb, if◌then◌else◌,
}
use smp_boot.Clib.Masks.{mask_set, mask_clear, is_mask_set, is_mask_clear}

-- MAX_MEM / PAGE_SIZE
abbrev pub max_frames : ℕ
max_frames = 2 * 1024 * 1024 * 1024 / 4096

abbrev pub frame_type_pt : ℕ
frame_type_pt = 1

abbrev pub frame_type_4k : ℕ
frame_type_4k = 2

-- `freemap`, with the two static variables of `get_free_frame`.
pub record Freemap : Type 0 where
  pub words : ℕ → ℕ
  pub last_frame_pt : ℕ
  pub last_frame_4k : ℕ

-- A region of the memory map that the boot loader passes.
pub record Region : Type 0 where
  pub addr : ℕ
  pub len : ℕ
  pub kind : ℕ

-- The fields of `multiboot_info_t` that `mm_init` reads, with the map as the list of its entries.
pub record BootInfo : Type 0 where
  pub flags : ℕ
  pub mem_upper : ℕ
  pub mmap : List Region

-- The frames of `mem_upper` kB, up to the supported memory.
abbrev pub upper_limit : BootInfo → ℕ
upper_limit mbi = if ltb max_frames (mbi.mem_upper / 4) then max_frames else mbi.mem_upper / 4

abbrev pub update : (ℕ → ℕ) → ℕ → ℕ → ℕ → ℕ
update f i v j = if i == j then v else f j

-- `unsigned long` has `w` bits: 32 or 64 in the two builds. `one_shl b` stands for the value of
-- `1 << b` converted to `unsigned long`. The C standard leaves it open for `b` from 31 on.
module _ (w : ℕ) (one_shl : ℕ → ℕ) where
  abbrev pub frame_to_freemap_index : ℕ → ℕ
  frame_to_freemap_index frame = frame / w % 2 ^ 32

  abbrev pub frame_to_freemap_bit : ℕ → ℕ
  frame_to_freemap_bit frame = frame % w % 2 ^ 32

  -- IS_BIT_SET(freemap[index], bit), the test of the loops, by its negation
  unfoldable pub is_free : (ℕ → ℕ) → ℕ → Bool
  is_free words frame =
      is_mask_set (words (frame_to_freemap_index frame)) (one_shl (frame_to_freemap_bit frame))

  -- BIT_SET(freemap[index], bit)
  unfoldable pub register_frame : (ℕ → ℕ) → ℕ → (ℕ → ℕ)
  register_frame words frame =
      let i = frame_to_freemap_index frame in
      update words i (mask_set (words i) (one_shl (frame_to_freemap_bit frame)))

  -- BIT_CLEAR(freemap[index], bit)
  unfoldable pub take_frame : (ℕ → ℕ) → ℕ → (ℕ → ℕ)
  take_frame words frame =
      let i = frame_to_freemap_index frame in
      update words i (mask_clear w (words i) (one_shl (frame_to_freemap_bit frame)))

  -- The `while` loop of `get_free_frame`. `none` is the halt after "out of memory". The fuel is the
  -- number of frames left: the loop halts of itself before it is used up.
  unfoldable pub scan : ℕ → (ℕ → ℕ) → ℕ → Option ℕ
  scan zero words last = none
  scan (suc fuel) words last =
      let rest = scan fuel words (last + 1) in
      if is_free words last then some last else if leb max_frames (last + 1) then none else rest

  -- `none` is the halt with STATUS_ERROR.
  unfoldable pub get_free_frame : ℕ → Freemap → Option (ℕ × Freemap)
  get_free_frame type m =
      if type == frame_type_4k
      then elim (scan (max_frames - m.last_frame_4k) m.words m.last_frame_4k) [
        | none ↦ none
        | some f ↦ some (f, record m { words = take_frame m.words f; last_frame_4k = f })
      ]
      else if type == frame_type_pt
      then elim (scan (max_frames - m.last_frame_pt) m.words m.last_frame_pt) [
        | none ↦ none
        | some f ↦ some (f, record m { words = take_frame m.words f; last_frame_pt = f })
      ]
      else none

  -- `for (u = 0x400; u < limit; u++) { count++; BIT_SET }`, by the rounds left
  unfoldable pub register_upper : ℕ → ℕ → (ℕ → ℕ) × ℕ → (ℕ → ℕ) × ℕ
  register_upper zero u state = state
  register_upper (suc rounds) u (words, count) =
      register_upper rounds (u + 1) (register_frame words u, count + 1)

  -- The body of the loop over the frames of a region.
  unfoldable pub register_if_new : ℕ → (ℕ → ℕ) × ℕ → (ℕ → ℕ) × ℕ
  register_if_new u (words, count) =
      if leb 0x400 u && ltb u max_frames
      then if is_free words u then (words, count) else (register_frame words u, count + 1)
      else (words, count)

  -- That loop, by the rounds left.
  unfoldable pub register_range : ℕ → ℕ → (ℕ → ℕ) × ℕ → (ℕ → ℕ) × ℕ
  register_range zero u state = state
  register_range (suc rounds) u state = register_range rounds (u + 1) (register_if_new u state)

  -- The loop over the memory map. The counter `u` has 32 bits: a region that ends at frame 2^32 or
  -- above makes the inner loop run for ever, which is `none`.
  unfoldable pub register_map : List Region → (ℕ → ℕ) × ℕ → Option ((ℕ → ℕ) × ℕ)
  register_map [] state = some state
  register_map (r ∷ rs) state =
      let first = r.addr / 4096 % 2 ^ 32 in
      let end = (r.addr + r.len) % 2 ^ 64 / 4096 in
      let next = register_map rs (register_range (end - first) first state) in
      let skipped = register_map rs state in
      if r.kind == 1 then if leb (2 ^ 32) end then none else next else skipped

  -- The part "initialize freemap[]" of `mm_init`, with the count that it reports.
  unfoldable pub init_freemap : BootInfo → Option (Freemap × ℕ)
  init_freemap mbi =
      let cleared : (ℕ → ℕ) × ℕ = (λ i. 0, 0) in
      let upper =
        if is_mask_set mbi.flags (2 ^ 0)
        then register_upper (upper_limit mbi - 0x400) 0x400 cleared
        else cleared in
      let all = if is_mask_set mbi.flags (2 ^ 6) then register_map mbi.mmap upper else some upper in
      elim all [
        | none ↦ none
        | some (words, count) ↦
            some (record { words = words; last_frame_pt = 0x400; last_frame_4k = 0x800 }, count)
      ]
