-- ===== src/Memory/Heap.antt =====
-- mm.c: `heap_alloc` and `heap_reconfig` of the 64-bit build. Each runs under `pt_mutex`, which is
-- free on entry and on return; what runs in between is one step here.
pub mod Ranges
pub mod Backing
pub mod Total
use smp_boot.Base.{
  ℕ, zero, suc, ◌+◌, ◌-◌, ◌*◌, ◌/◌, ◌%◌, ◌^◌, Bool, Option, none, some, if◌then◌else◌, bit_or,
}
use smp_boot.Clib.Masks.{is_mask_set, mask_set}
use smp_boot.Memory.Freemap.{frame_type_4k, get_free_frame}
use smp_boot.Memory.Paging.{Machine, ◌>>=◌, page_to_adr, map_frame_to_adr, map_pwt, map_pcd}
use smp_boot.Memory.Translate.{reconf_adr}

pub record Heap : Type 0 where
  pub machine : Machine
  pub next_virt_page : ℕ

abbrev pub mm_write_through : ℕ
mm_write_through = 0x0010

abbrev pub mm_cache_disable : ℕ
mm_cache_disable = 0x0020

-- `map_flags` of both functions
unfoldable pub map_flags : ℕ → ℕ
map_flags flags =
    let pwt = if is_mask_set flags mm_write_through then mask_set 0 map_pwt else 0 in
    if is_mask_set flags mm_cache_disable then mask_set pwt map_pcd else pwt

module _ (one_shl : ℕ → ℕ) where
  -- One round of the loop of `heap_alloc`.
  unfoldable pub alloc_page : ℕ → Heap → Option Heap
  alloc_page flags h = do
    (frame, freemap) ← get_free_frame 64 one_shl frame_type_4k h.machine.freemap
    machine ←
        map_frame_to_adr one_shl frame (page_to_adr h.next_virt_page) flags
          (record h.machine { freemap = freemap })
    some (record { machine = machine; next_virt_page = (h.next_virt_page + 1) % 2 ^ 64 })

  unfoldable pub alloc_pages : ℕ → ℕ → Heap → Option Heap
  alloc_pages zero flags h = some h
  alloc_pages (suc n) flags h = do h' ← alloc_page flags h; alloc_pages n flags h'

  -- `none` is a halt: out of memory.
  unfoldable pub heap_alloc : ℕ → ℕ → Heap → Option (ℕ × Heap)
  heap_alloc nbr_pages flags h = do
    h' ← alloc_pages nbr_pages (map_flags flags) h
    some (page_to_adr h.next_virt_page, h')

-- The loop of `heap_reconfig`, by the rounds left.
unfoldable pub reconf_pages : ℕ → ℕ → ℕ → Machine → Machine
reconf_pages zero adr flags m = m
reconf_pages (suc n) adr flags m = reconf_pages n (adr + 2 ^ 12) flags (reconf_adr adr flags m)

abbrev pub round_down : ℕ → ℕ
round_down adr = adr / 2 ^ 12 * 2 ^ 12

abbrev pub round_up : ℕ → ℕ
round_up size = (size + (2 ^ 12 - 1)) % 2 ^ 64 / 2 ^ 12 * 2 ^ 12

-- The loop runs while the address is below `adr + size`, which wraps at 2 ^ 64.
unfoldable pub heap_reconfig : ℕ → ℕ → ℕ → Machine → Machine
heap_reconfig adr size flags m =
    let end = (round_down adr + round_up size) % 2 ^ 64 in
    reconf_pages ((end - round_down adr) / 2 ^ 12) (round_down adr) (map_flags flags) m
