-- ===== src/Memory/Tree/Path.antt =====
-- mm.c: `map_frame_to_adr` as a whole on the tree of page tables, by recursion on the levels.
use smp_boot.Base.{
  ℕ, ◌^◌, ◌≤◌, ◌<◌, ◌≡◌, ◌≢◌, true, false, Option, none, some, arith, List, [], ◌∷◌, length,
}
use native.Mathlib.Decide.{ℕ_discrete}
use native.Mathlib.Nat.{mod-eq_of_lt}
use smp_boot.Memory.Freemap.{is_free}
use smp_boot.Memory.Paging.{Entry, Machine, Arch, blank, window, enter_table, map_page, ◌>>=◌}
use smp_boot.Memory.Tree.{view, lookup}
use smp_boot.Memory.Tree.Enter.{HasTree}

-- The levels of `map_frame_to_adr` from table `t` on, which the window shows at the last one.
unfoldable pub map_path :
    (arch : Arch) (one_shl : ℕ → ℕ) (frame flags t : ℕ) → List ℕ → Machine → Option Machine
map_path arch one_shl frame flags t [] m = some m
map_path arch one_shl frame flags t (i ∷ []) m = some (map_page arch frame i flags m)
map_path arch one_shl frame flags t (i ∷ j ∷ is) m = do
  m' ← enter_table arch one_shl t i m
  map_path arch one_shl frame flags (window arch m') (j ∷ is) m'

pub lookup-blank :
    (tables : ℕ → ℕ → Entry) (t i : ℕ) (is : List ℕ)
    → tables t i ≡ blank
    → lookup tables t (i ∷ is) ≡ none
lookup-blank tables t i [] e = rw e
lookup-blank tables t i (j ∷ is) e = rw e

module _ (arch : Arch) (one_shl : ℕ → ℕ) where
  -- What the levels from table `t` on do for the indices `is`: the page that they lead to is there
  -- after, with its old frame if there was one. All other walks stay.
  pub record Mapped (rank : ℕ → ℕ) (m : Machine) (t : ℕ) (is : List ℕ) (frame : ℕ) (m' : Machine)
      : Type 0 where
    pub rank' : ℕ → ℕ
    pub has : HasTree arch one_shl rank' m'
    pub pd1_same : m'.pd1 ≡ m.pd1
    pub free_kept :
        (f : ℕ)
        → is_free arch.ulong_bits one_shl m'.freemap.words f ≡ true
        → is_free arch.ulong_bits one_shl m.freemap.words f ≡ true
    pub rank_kept : (s : ℕ) → 1 ≤ rank s → rank' s ≡ rank s
    pub above : (s j : ℕ) → length is ≤ rank s → s ≢ t → view arch m' s j ≡ view arch m s j
    pub others :
        (s : ℕ) (js : List ℕ)
        → rank s ≡ length is
        → length js ≡ length is
        → (s ≡ t → js ≢ is)
        → lookup (view arch m') s js ≡ lookup (view arch m) s js
    pub new_page :
        lookup (view arch m) t is ≡ none
        → (e : Entry) × (lookup (view arch m') t is ≡ some e) × (e.frame ≡ frame)
    pub old_page :
        (e : Entry) → lookup (view arch m) t is ≡ some e → lookup (view arch m') t is ≡ some e

  pub view-map_page_other :
      (frame i flags : ℕ) (m : Machine) (s j : ℕ)
      → (s ≡ window arch m → j ≢ i)
      → view arch (map_page arch frame i flags m) s j ≡ view arch m s j
  unfolding map_page view
  view-map_page_other frame i flags m s j beside = elim (ℕ_discrete s (window arch m)) [
    | no other ↦ ground arith
    | yes here ↦ let next : j ≢ i = beside here in ground arith
  ]

  pub view-map_page_old :
      (frame i flags : ℕ) (m : Machine)
      → (view arch m (window arch m) i).p ≡ true
      → view arch (map_page arch frame i flags m) (window arch m) i ≡ view arch m (window arch m) i
  unfolding map_page view
  view-map_page_old frame i flags m present = ground arith

  pub view-map_page_new :
      (frame i flags : ℕ) (m : Machine)
      → frame < 2 ^ arch.frame_bits
      → (view arch m (window arch m) i).p ≡ false
      → let e = view arch (map_page arch frame i flags m) (window arch m) i in
        (e.p ≡ true) × (e.frame ≡ frame)
  unfolding map_page view
  view-map_page_new frame i flags m small absent =
      ground (arith, mod-eq_of_lt {n = frame} {m = 2 ^ arch.frame_bits} small)
