-- ===== src/Memory/Heap/Total.antt =====
-- mm.c: `heap_alloc` and the frames for its pages and their page tables.
use smp_boot.Base.{
  ℕ, zero, suc, ◌+◌, ◌^◌, ◌%◌, ◌<◌, ◌≤◌, ◌≡◌, refl, none, some, false, Bool-cases, inl, inr,
}
use smp_boot.Clib.Masks.{is_mask_set, mask_set}
use smp_boot.Memory.Freemap.Scan.{IsShift}
use smp_boot.Memory.Paging.{map_huge, page_to_adr}
use smp_boot.Memory.Translate.{walk}
use smp_boot.Memory.Tree.Maps.{page, seen, IsMachine}
use smp_boot.Memory.Tree.Supply.{Supply, map_frame_to_adr-Supply}
use smp_boot.Memory.Heap.{
  Heap, mm_write_through, mm_cache_disable, map_flags, alloc_page, alloc_pages, heap_alloc,
}
use smp_boot.Memory.Heap.Backing.{Backed, heap_alloc-Backed}

-- A page needs a frame and at most three for page tables.
abbrev pub frames_for : ℕ → ℕ
frames_for zero = 0
frames_for (suc n) = suc (suc (suc (suc (frames_for n))))

map_flags-not_huge : (flags : ℕ) → is_mask_set (map_flags flags) map_huge ≡ false
unfolding map_flags is_mask_set mask_set
map_flags-not_huge flags = elim (Bool-cases (is_mask_set flags mm_write_through)) [
  | inl pwt ↦ elim (Bool-cases (is_mask_set flags mm_cache_disable)) [
    | inl pcd ↦ rw (pwt, pcd) refl
    | inr no_pcd ↦ rw (pwt, no_pcd) refl
  ]
  | inr no_pwt ↦ elim (Bool-cases (is_mask_set flags mm_cache_disable)) [
    | inl pcd ↦ rw (no_pwt, pcd) refl
    | inr no_pcd ↦ rw (no_pwt, no_pcd) refl
  ]
]

module _ (one_shl : ℕ → ℕ) where
  alloc_page-Supply :
      (n flags : ℕ) (h : Heap)
      → is_mask_set flags map_huge ≡ false
      → Supply one_shl (suc (suc (suc (suc n)))) h.machine.freemap
      → (h' : Heap) × (alloc_page one_shl flags h ≡ some h') × Supply one_shl n h'.machine.freemap
  unfolding alloc_page
  alloc_page-Supply n flags h plain supply =
      let (f, freemap, given, rest) = supply.1 in
      let (machine, mapped, left) =
        map_frame_to_adr-Supply one_shl n f (page_to_adr h.next_virt_page) flags
          (record h.machine { freemap = freemap }) plain rest in
      (
        record { machine = machine; next_virt_page = (h.next_virt_page + 1) % 2 ^ 64 },
        rw (given, mapped) refl,
        left,
      )

  alloc_pages-Supply :
      (n flags : ℕ) (h : Heap)
      → is_mask_set flags map_huge ≡ false
      → Supply one_shl (frames_for n) h.machine.freemap
      → (h' : Heap) × (alloc_pages one_shl n flags h ≡ some h')
  unfolding alloc_pages
  alloc_pages-Supply zero flags h plain supply = (h, refl)
  alloc_pages-Supply (suc n) flags h plain supply =
      let (h1, first, left) = alloc_page-Supply (frames_for n) flags h plain supply in
      let (h', rest) = alloc_pages-Supply n flags h1 plain left in (h', rw (first, rest) refl)

-- Where four frames can be given out for each page, and the pages are not mapped, `heap_alloc`
-- returns the address of the first of them: each of their addresses leads to a frame that was free,
-- a different one for each page, and every other page is as before.
pub heap_alloc-total :
    {one_shl : ℕ → ℕ} (shift : IsShift 64 one_shl) (n flags : ℕ) (h : Heap)
    → IsMachine one_shl h.machine
    → h.next_virt_page + n ≤ 2 ^ 36
    → ((adr k : ℕ) → k < n → page adr ≡ h.next_virt_page + k → walk adr (seen h.machine) ≡ none)
    → Supply one_shl (frames_for n) h.machine.freemap
    → (h' : Heap) × (heap_alloc one_shl n flags h ≡ some (page_to_adr h.next_virt_page, h'))
      × Backed shift n h h'
unfolding heap_alloc
heap_alloc-total {one_shl} shift n flags h is room unmapped supply =
    let (h', done) =
      alloc_pages-Supply one_shl n (map_flags flags) h (map_flags-not_huge flags) supply in
    let returned : heap_alloc one_shl n flags h ≡ some (page_to_adr h.next_virt_page, h') =
      rw done refl in
    (h', returned, heap_alloc-Backed shift n flags h is room unmapped returned)
