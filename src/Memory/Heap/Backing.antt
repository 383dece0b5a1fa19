-- ===== src/Memory/Heap/Backing.antt =====
-- mm.c: the frames behind the pages that `heap_alloc` gives out.
use smp_boot.Base.{
  ℕ, zero, suc, ◌+◌, ◌*◌, ◌%◌, ◌^◌, ◌≤◌, ◌<◌, ◌≡◌, ◌≢◌, refl, Bool, true, false, none, some, arith,
  Option-cases, Bool-cases, inl, inr, ap, ◌∙◌,
}
use mathlib.Core.Path.{subst}
use smp_boot.Memory.Freemap.{Freemap, frame_type_4k, is_free, get_free_frame}
use smp_boot.Memory.Freemap.Scan.{IsShift, IsValid}
use smp_boot.Memory.Freemap.Grants.{get_free_frame-Gives}
use smp_boot.Memory.Paging.{Machine, x86_64, page_to_adr, map_frame_to_adr}
use smp_boot.Memory.Translate.{walk, physical}
use smp_boot.Memory.Tree.{view}
use smp_boot.Memory.Tree.Maps.{page, seen, IsMachine, Maps, map_frame_to_adr-Maps}
use smp_boot.Memory.Heap.{Heap, map_flags, alloc_page, alloc_pages, heap_alloc}

module _ {one_shl : ℕ → ℕ} (shift : IsShift 64 one_shl) where
  abbrev free_in : Heap → ℕ → Bool
  free_in h f = is_free 64 one_shl h.machine.freemap.words f

  -- The pages from the next one of `h` on, `n` of them, are backed in `h'` by frames of their own
  -- that were free, and nothing else has changed.
  pub record Backed (n : ℕ) (h h' : Heap) : Type 0 where
    pub still : IsMachine one_shl h'.machine
    pub frame : ℕ → ℕ
    pub backs :
        (k adr : ℕ)
        → k < n
        → page adr ≡ h.next_virt_page + k
        → physical adr (walk adr (seen h'.machine)) ≡ frame k * 2 ^ 12 + adr % 2 ^ 12
    pub was_free : (k : ℕ) → k < n → free_in h (frame k) ≡ true
    pub taken : (k : ℕ) → k < n → free_in h' (frame k) ≡ false
    pub distinct : (k l : ℕ) → k < l → l < n → frame k ≢ frame l
    pub others :
        (adr : ℕ)
        → ((k : ℕ) → k < n → page adr ≢ h.next_virt_page + k)
        → walk adr (seen h'.machine) ≡ walk adr (seen h.machine)
    pub free_kept : (f : ℕ) → free_in h' f ≡ true → free_in h f ≡ true

  abbrev Unmapped : ℕ → Heap → Type 0
  Unmapped n h =
      (adr k : ℕ) → k < n → page adr ≡ h.next_virt_page + k → walk adr (seen h.machine) ≡ none

  abbrev with_freemap : Machine → Freemap → Machine
  with_freemap m freemap = record m { freemap = freemap }

  view-with_freemap :
      (m : Machine) (freemap : Freemap) → view x86_64 (with_freemap m freemap) ≡ view x86_64 m
  unfolding view
  view-with_freemap m freemap = refl

  walk-with_freemap :
      (adr : ℕ) (m : Machine) (freemap : Freemap)
      → walk adr (seen (with_freemap m freemap)) ≡ walk adr (seen m)
  walk-with_freemap adr m freemap = rw (view-with_freemap m freemap)

  IsMachine-taken :
      (m : Machine) (freemap : Freemap)
      → IsMachine one_shl m
      → IsValid freemap
      → ((f : ℕ)
          → is_free 64 one_shl freemap.words f ≡ true
          → is_free 64 one_shl m.freemap.words f ≡ true)
      → IsMachine one_shl (with_freemap m freemap)
  IsMachine-taken m freemap is valid kept = record {
    rank = is.rank;
    has = record {
      tree = rw (view-with_freemap m freemap) is.has.tree;
      window_rank = is.has.window_rank;
      valid = valid;
      free_rank = λ f free. is.has.free_rank f (kept f free);
    };
    root = is.root;
  }

  page-Backed :
      (h : Heap) (f : ℕ) (freemap : Freemap) (h' : Heap)
      → h.next_virt_page + 1 ≤ 2 ^ 36
      → Unmapped 1 h
      → free_in h f ≡ true
      → is_free 64 one_shl freemap.words f ≡ false
      → ((g : ℕ) → is_free 64 one_shl freemap.words g ≡ true → free_in h g ≡ true)
      → Maps one_shl f (page_to_adr h.next_virt_page) (with_freemap h.machine freemap) h'.machine
      → Backed 1 h h'
  page-Backed h f freemap h' room unmapped free taken kept maps =
      let m = with_freemap h.machine freemap in
      let adr = page_to_adr h.next_virt_page in
      let here : page adr ≡ h.next_virt_page = omega arith in
      let absent : walk adr (seen m) ≡ none =
        walk-with_freemap adr h.machine freemap ∙ unmapped adr 0 (omega arith) (omega arith) in
      record {
        still = maps.still;
        frame = λ k. f;
        backs = λ k a k_in at. maps.new_page absent a (omega arith);
        was_free = λ k k_in. free;
        taken = λ k k_in. elim (Bool-cases (free_in h' f)) [
          | inl still_free ↦ absurd (ground (arith, maps.free_kept f still_free))
          | inr gone ↦ gone
        ];
        distinct = λ k l lt l_in. absurd (omega arith);
        others = λ a apart.
            maps.others a (λ e. apart 0 (omega arith) (e ∙ here ∙ omega arith))
            ∙ walk-with_freemap a h.machine freemap;
        free_kept = λ g still_free. kept g (maps.free_kept g still_free);
      }

  alloc_page-Backed :
      (flags : ℕ) (h : Heap) {h' : Heap}
      → IsMachine one_shl h.machine
      → h.next_virt_page + 1 ≤ 2 ^ 36
      → Unmapped 1 h
      → alloc_page one_shl flags h ≡ some h'
      → Backed 1 h h' × (h'.next_virt_page ≡ h.next_virt_page + 1)
  unfolding alloc_page
  alloc_page-Backed flags h {h'} is room free_pages e =
      elim (Option-cases (get_free_frame 64 one_shl frame_type_4k h.machine.freemap)) [
        | inl halted ↦ absurd (ground arith)
        | inr ((f, freemap), given) ↦
            let m = with_freemap h.machine freemap in
            let adr = page_to_adr h.next_virt_page in
            elim (Option-cases (map_frame_to_adr one_shl f adr flags m)) [
              | inl halted ↦ absurd (ground arith)
              | inr (m', mapped) ↦
                  let (was_free, taken, kept, inside, valid) =
                    get_free_frame-Gives shift frame_type_4k h.machine.freemap is.has.valid given in
                  let maps =
                    map_frame_to_adr-Maps shift f adr flags m (omega (arith, inside))
                      (IsMachine-taken h.machine freemap is valid kept) mapped in
                  let next : Heap = record {
                    machine = m';
                    next_virt_page = (h.next_virt_page + 1) % 2 ^ 64;
                  } in
                  let same : next ≡ h' = ground arith in
                  subst (λ (r : Heap). Backed 1 h r × (r.next_virt_page ≡ h.next_virt_page + 1))
                    same
                    (
                      page-Backed h f freemap next room free_pages was_free taken kept maps,
                      omega arith,
                    )
            ]
      ]

  -- A run of pages, and one page before it.
  abbrev first_then : ℕ → (ℕ → ℕ) → ℕ → ℕ
  first_then f fs zero = f
  first_then f fs (suc k) = fs k

  module _ (n : ℕ) (h h1 h' : Heap) (one : Backed 1 h h1)
      (next : h1.next_virt_page ≡ h.next_virt_page + 1) (rest : Backed n h1 h') where
    frames : ℕ → ℕ
    frames = first_then (one.frame 0) rest.frame

    stays_taken : (f : ℕ) → free_in h1 f ≡ false → free_in h' f ≡ false
    stays_taken f gone = elim (Bool-cases (free_in h' f)) [
      | inl free ↦ absurd (ground (arith, rest.free_kept f free))
      | inr taken ↦ taken
    ]

    cons_backs :
        (k adr : ℕ)
        → k < suc n
        → page adr ≡ h.next_virt_page + k
        → physical adr (walk adr (seen h'.machine)) ≡ frames k * 2 ^ 12 + adr % 2 ^ 12
    unfolding frames
    cons_backs zero adr k_in at =
        ap (physical adr) (rest.others adr (λ l l_in e. omega arith))
        ∙ one.backs 0 adr (omega arith) at
    cons_backs (suc k) adr k_in at = rest.backs k adr (omega arith) (omega arith)

    cons_was_free : (k : ℕ) → k < suc n → free_in h (frames k) ≡ true
    unfolding frames
    cons_was_free zero k_in = one.was_free 0 (omega arith)
    cons_was_free (suc k) k_in = one.free_kept (rest.frame k) (rest.was_free k (omega arith))

    cons_taken : (k : ℕ) → k < suc n → free_in h' (frames k) ≡ false
    unfolding frames
    cons_taken zero k_in = stays_taken (one.frame 0) (one.taken 0 (omega arith))
    cons_taken (suc k) k_in = rest.taken k (omega arith)

    cons_distinct : (k l : ℕ) → k < l → l < suc n → frames k ≢ frames l
    unfolding frames
    cons_distinct k zero lt l_in e = absurd (omega arith)
    cons_distinct zero (suc l) lt l_in e =
        cc (one.taken 0 (omega arith), rest.was_free l (omega arith), ap (free_in h1) e)
    cons_distinct (suc k) (suc l) lt l_in e = rest.distinct k l (omega arith) (omega arith) e

    Backed-cons : Backed (suc n) h h'
    Backed-cons = record {
      still = rest.still;
      frame = frames;
      backs = cons_backs;
      was_free = cons_was_free;
      taken = cons_taken;
      distinct = cons_distinct;
      others = λ adr apart.
          rest.others adr (λ k k_in e. apart (suc k) (omega arith) (omega arith))
          ∙ one.others adr (λ k k_in e. apart 0 (omega arith) (omega arith));
      free_kept = λ f free. one.free_kept f (rest.free_kept f free);
    }

  alloc_pages-Backed :
      (n flags : ℕ) (h : Heap) {h' : Heap}
      → IsMachine one_shl h.machine
      → h.next_virt_page + n ≤ 2 ^ 36
      → Unmapped n h
      → alloc_pages one_shl n flags h ≡ some h'
      → Backed n h h'
  unfolding alloc_pages
  alloc_pages-Backed zero flags h {h'} is room unmapped e =
      let same : h ≡ h' = cc in
      subst (Backed 0 h) same (record {
        still = is;
        frame = λ k. 0;
        backs = λ k adr k_in at. absurd (omega arith);
        was_free = λ k k_in. absurd (omega arith);
        taken = λ k k_in. absurd (omega arith);
        distinct = λ k l lt l_in. absurd (omega arith);
        others = λ adr apart. refl;
        free_kept = λ f free. free;
      })
  alloc_pages-Backed (suc n) flags h {h'} is room unmapped e =
      elim (Option-cases (alloc_page one_shl flags h)) [
        | inl halted ↦ absurd (ground arith)
        | inr (h1, first) ↦
            let (one, next) =
              alloc_page-Backed flags h is (omega arith)
                (λ adr k k_in at. unmapped adr k (omega arith) at) first in
            let more : alloc_pages one_shl n flags h1 ≡ some h' = ground arith in
            Backed-cons n h h1 h' one next (
              alloc_pages-Backed n flags h1 one.still (omega arith)
                (λ adr k k_in at.
                  one.others adr (λ l l_in e. omega arith)
                  ∙ unmapped adr (suc k) (omega arith) (omega arith))
                more)
      ]

  -- When `heap_alloc` returns for pages that were not mapped, each of their addresses leads to a
  -- frame that was free, a different one for each page, and every other page is as before.
  pub heap_alloc-Backed :
      (n flags : ℕ) (h : Heap) {a : ℕ} {h' : Heap}
      → IsMachine one_shl h.machine
      → h.next_virt_page + n ≤ 2 ^ 36
      → ((adr k : ℕ) → k < n → page adr ≡ h.next_virt_page + k → walk adr (seen h.machine) ≡ none)
      → heap_alloc one_shl n flags h ≡ some (a, h')
      → Backed n h h'
  unfolding heap_alloc
  heap_alloc-Backed n flags h {h'} is room unmapped e =
      elim (Option-cases (alloc_pages one_shl n (map_flags flags) h)) [
        | inl halted ↦ absurd (ground arith)
        | inr (h1, done) ↦
            let same : h1 ≡ h' = ground arith in
            subst (Backed n h) same (alloc_pages-Backed n (map_flags flags) h is room unmapped done)
      ]
