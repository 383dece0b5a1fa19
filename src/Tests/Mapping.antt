-- ===== src/Tests/Mapping.antt =====
-- Runs of `map_frame_to_adr` and `heap_alloc` of mm.c on the page tables that the start-up code
-- leaves: the first 2 MB are mapped to themselves.
use smp_boot.Base.{
  Bool, false, Option-cases, inl, inr, ℕ, zero, suc, ◌+◌, ◌-◌, ◌^◌, ◌<◌, ◌≡◌, ◌≢◌, refl, sym, ap,
  ◌∙◌, true, none, some, ◌==◌, ltb, ◌&&◌, if◌then◌else◌, arith,
}
use smp_boot.Clib.Masks.{mask_set, is_mask_set, is_mask_clear, mask_clear}
use smp_boot.Memory.Freemap.{
  Freemap, frame_type_pt, frame_type_4k, get_free_frame, scan, is_free, take_frame,
}
use smp_boot.Memory.Paging.{Machine, x86_64, blank, map_frame_to_adr}
use smp_boot.Memory.Translate.{walk}
use smp_boot.Memory.Tree.{view, IsTree}
use smp_boot.Memory.Tree.Maps.{page, seen, IsMachine, Maps}
use smp_boot.Memory.Tree.Supply.{Supply, Grant, map_frame_to_adr-total}
use smp_boot.Memory.Heap.{Heap, heap_alloc}
use smp_boot.Memory.Heap.Backing.{Backed}
use smp_boot.Memory.Heap.Total.{heap_alloc-total}
use smp_boot.Tests.Frames.{int_shl, int_shl-IsShift}
use smp_boot.Tests.Paging.{to_frame}

abbrev booted : Machine
booted = record {
  table = λ t i.
      if (t == 1) && (i == 0)
      then to_frame 2
      else if (t == 2) && (i == 0)
      then to_frame 3
      else if (t == 3) && (i == 0)
      then to_frame 5
      else if t == 5
      then to_frame i
      else blank;
  pd1 = 1;
  freemap = record {
    words = λ i. if ltb i 16 then 0 else 2 ^ 64 - 1;
    last_frame_pt = 0x400;
    last_frame_4k = 0x800;
  };
}

abbrev booted_rank : ℕ → ℕ
booted_rank t =
    if t == 1 then 4 else if t == 2 then 3 else if t == 3 then 2 else if t == 5 then 1 else 0

booted-IsTree : IsTree 40 booted_rank (view x86_64 booted)
unfolding view
booted-IsTree = record {
  child = λ t i h p. ground arith;
  unique = λ t i t' i' h h' p p' e. ground arith;
  plain = λ t i h. ground arith;
  fits = λ t i h p. ground arith;
}

booted_free : (f : ℕ) → is_free 64 int_shl booted.freemap.words f ≡ true → booted_rank f ≡ 0
unfolding is_free is_mask_set
booted_free f free =
    let one : f ≢ 1 = λ e. cc (sym free ∙ ap (is_free 64 int_shl booted.freemap.words) e) in
    let two : f ≢ 2 = λ e. cc (sym free ∙ ap (is_free 64 int_shl booted.freemap.words) e) in
    let three : f ≢ 3 = λ e. cc (sym free ∙ ap (is_free 64 int_shl booted.freemap.words) e) in
    let five : f ≢ 5 = λ e. cc (sym free ∙ ap (is_free 64 int_shl booted.freemap.words) e) in
    ground arith

booted-IsMachine : IsMachine int_shl booted
booted-IsMachine = record {
  rank = booted_rank;
  has = record {
    tree = booted-IsTree;
    window_rank = refl;
    valid = omega arith;
    free_rank = booted_free;
  };
  root = refl;
}

-- Whether `n` frames can be given out, whatever their types.
abbrev grant? : ℕ → Freemap → (Freemap → Bool) → Bool
grant? type m p = elim (get_free_frame 64 int_shl type m) [ none ↦ false | some r ↦ p r.1 ]

abbrev supply? : ℕ → Freemap → Bool
supply? zero m = true
supply? (suc n) m = grant? frame_type_pt m (supply? n) && grant? frame_type_4k m (supply? n)

Grant-grant? :
    {P : Freemap → Type 0} (type : ℕ) (m : Freemap) (p : Freemap → Bool)
    → ((m' : Freemap) → p m' ≡ true → P m')
    → grant? type m p ≡ true
    → Grant int_shl type m P
Grant-grant? type m p sound h = elim (Option-cases (get_free_frame 64 int_shl type m)) [
  | inl halted ↦ absurd (ground arith)
  | inr ((f, m'), given) ↦ (f, m', given, sound m' (ground arith))
]

Supply-supply? : (n : ℕ) (m : Freemap) → supply? n m ≡ true → Supply int_shl n m
Supply-supply? zero m h = tt
Supply-supply? (suc n) m h = (
  Grant-grant? frame_type_pt m (supply? n) (Supply-supply? n) (ground arith),
  Grant-grant? frame_type_4k m (supply? n) (Supply-supply? n) (ground arith),
)

booted-Supply : Supply int_shl 3 booted.freemap × Supply int_shl 4 booted.freemap
unfolding get_free_frame scan is_free take_frame mask_set is_mask_set is_mask_clear mask_clear
booted-Supply = (Supply-supply? 3 booted.freemap refl, Supply-supply? 4 booted.freemap refl)

-- Frame 0x900 behind address 0x400000.
map_frame_to_adr-total_example :
    (m' : Machine) × (map_frame_to_adr int_shl 0x900 0x400000 0 booted ≡ some m')
    × Maps int_shl 0x900 0x400000 booted m'
unfolding is_mask_set
map_frame_to_adr-total_example =
    map_frame_to_adr-total int_shl-IsShift 0x900 0x400000 0 booted (omega arith) booted-IsMachine
      refl booted-Supply.0

abbrev heap : Heap
heap = record { machine = booted; next_virt_page = 0x400 }

-- Nothing is mapped beyond the first 2 MB.
heap_unmapped : (adr k : ℕ) → k < 1 → page adr ≡ 0x400 + k → walk adr (seen booted) ≡ none
unfolding view
heap_unmapped adr k k_in at = ground arith

heap_alloc-total_example :
    (h' : Heap) × (heap_alloc int_shl 1 0 heap ≡ some (0x400000, h'))
    × Backed int_shl-IsShift 1 heap h'
heap_alloc-total_example =
    heap_alloc-total int_shl-IsShift 1 0 heap booted-IsMachine (omega arith) heap_unmapped
      booted-Supply.1
