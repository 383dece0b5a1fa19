-- ===== src/Tests/Paging.antt =====
-- Runs of the page tables and the heap of mm.c.
use smp_boot.Base.{ℕ, none, some, ◌≡◌, refl, true, arith, if◌then◌else◌, ◌==◌}
use smp_boot.Memory.Paging.{
  Entry, Machine, blank, map_temporary, map_frame_to_adr, enter_table, map_page,
}
use smp_boot.Memory.Translate.{virt_to_phys, walk, physical}
use smp_boot.Memory.Translate.Laws.{virt_to_phys-walk}
use smp_boot.Memory.Freemap.{get_free_frame, scan, is_free, take_frame}
use smp_boot.Clib.Masks.{mask_set, is_mask_set, is_mask_clear, mask_clear}
use smp_boot.Memory.Heap.{Heap, alloc_page, map_flags, alloc_pages, heap_alloc}
use smp_boot.Tests.Frames.{int_shl, all_free64}

abbrev pub to_frame : ℕ → Entry
to_frame f = record blank { p = true; rw = true; frame = f }

-- Address 0x400000 is mapped to frame 0x900 by the tables in the frames 1, 2, 3 and 7.
abbrev mapped : Machine
mapped = record {
  table = λ t i.
      if t == 1
      then to_frame 2
      else if t == 2
      then to_frame 3
      else if t == 3
      then to_frame 7
      else if t == 7
      then to_frame 0x900
      else blank;
  pd1 = 1;
  freemap = all_free64;
}

virt_to_phys-walk_example :
    (virt_to_phys 0x400123 mapped).0 ≡ physical 0x400123 (walk 0x400123 mapped)
virt_to_phys-walk_example = virt_to_phys-walk 0x400123 mapped (record {
  root = omega arith;
  second = omega arith;
  third = omega arith;
  fourth = omega arith;
  fits = λ t i. ground arith;
})

virt_to_phys-mapped : (virt_to_phys 0x400123 mapped).0 ≡ 0x900123
unfolding virt_to_phys map_temporary
virt_to_phys-mapped = refl

abbrev heap : Heap
heap = record {
  machine = record { table = λ t i. blank; pd1 = 1; freemap = all_free64 };
  next_virt_page = 0x400;
}

-- The state that an allocation leaves, or the one before where it halts.
abbrev after_alloc : ℕ → Heap → Heap
after_alloc n h = elim (heap_alloc int_shl n 0 h) [ none ↦ h | some (a, h') ↦ h' ]

one_page : heap_alloc int_shl 1 0 heap ≡ some (0x400000, after_alloc 1 heap)
unfolding heap_alloc alloc_pages alloc_page get_free_frame scan is_free take_frame map_frame_to_adr
    enter_table map_page map_temporary map_flags mask_set is_mask_set is_mask_clear mask_clear
one_page = refl

next_page :
    heap_alloc int_shl 1 0 (after_alloc 1 heap)
    ≡ some (0x401000, after_alloc 1 (after_alloc 1 heap))
unfolding heap_alloc alloc_pages alloc_page get_free_frame scan is_free take_frame map_frame_to_adr
    enter_table map_page map_temporary map_flags mask_set is_mask_set is_mask_clear mask_clear
next_page = refl
