-- ===== src/Memory/Heap/Ranges.antt =====
-- mm.c: the virtual addresses that `heap_alloc` gives out.
use smp_boot.Base.{ℕ, zero, suc, ◌+◌, ◌*◌, ◌%◌, ◌^◌, ◌<◌, ◌≡◌, some, arith, Option-cases, inl, inr}
use smp_boot.Memory.Heap.{Heap, map_flags, alloc_page, alloc_pages, heap_alloc}

module _ (one_shl : ℕ → ℕ) where
  next-alloc_page :
      (flags : ℕ) (h : Heap) {h' : Heap}
      → alloc_page one_shl flags h ≡ some h'
      → h'.next_virt_page ≡ (h.next_virt_page + 1) % 2 ^ 64
  unfolding alloc_page
  next-alloc_page flags h e = ground arith

  next-alloc_pages :
      (n flags : ℕ) (h h' : Heap)
      → h.next_virt_page + n < 2 ^ 52
      → alloc_pages one_shl n flags h ≡ some h'
      → h'.next_virt_page ≡ h.next_virt_page + n
  unfolding alloc_pages
  next-alloc_pages zero flags h h' room e = ground arith
  next-alloc_pages (suc n) flags h h' room e = elim (Option-cases (alloc_page one_shl flags h)) [
    | inl halted ↦ absurd (ground arith)
    | inr (h1, one) ↦ ground (arith, next-alloc_page flags h one, next-alloc_pages n flags h1 h')
  ]

  -- `heap_alloc` gives the address of the next unused page and moves it past the pages asked for,
  -- so that two calls give ranges that do not overlap, the second right behind the first.
  pub heap_alloc-adjacent :
      (n k flags flags' : ℕ) (h : Heap) {a b : ℕ} {h' h'' : Heap}
      → h.next_virt_page + n + k < 2 ^ 52
      → heap_alloc one_shl n flags h ≡ some (a, h')
      → heap_alloc one_shl k flags' h' ≡ some (b, h'')
      → (a ≡ h.next_virt_page * 2 ^ 12)
        × (b ≡ a + n * 2 ^ 12)
        × (h''.next_virt_page * 2 ^ 12 ≡ b + k * 2 ^ 12)
  unfolding heap_alloc
  heap_alloc-adjacent n k flags flags' h {h' = h1} {h'' = h2} room first second = ground (
    arith,
    next-alloc_pages n (map_flags flags) h h1,
    next-alloc_pages k (map_flags flags') h1 h2,
  )
