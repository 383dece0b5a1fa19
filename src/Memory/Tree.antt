-- ===== src/Memory/Tree.antt =====
-- mm.c: the page tables as a tree, whose ranks count the levels down to the pages.
pub mod Lookup
pub mod View
pub mod Enter
pub mod Path
pub mod Mapping
pub mod Maps
pub mod Supply
use smp_boot.Base.{
  ℕ, suc, ◌+◌, ◌^◌, ◌≤◌, ◌<◌, ◌≡◌, Bool, true, false, Option, none, some, List, [], ◌∷◌, ◌==◌, ◌&&◌,
  if◌then◌else◌,
}
use smp_boot.Memory.Paging.{Entry, Machine, Arch, blank, tmp_page}

-- The entry at the end of a walk along the indices of each level from table `t` on.
abbrev pub lookup : (ℕ → ℕ → Entry) → ℕ → List ℕ → Option Entry
lookup tables t [] = none
lookup tables t (i ∷ []) = if (tables t i).p then some (tables t i) else none
lookup tables t (i ∷ j ∷ is) =
    if (tables t i).p then lookup tables (tables t i).frame (j ∷ is) else none

-- The tables without what moves: the entry of the window stands as one that is present.
abbrev pub marker : Entry
marker = record blank { p = true }

unfoldable pub view : Arch → Machine → ℕ → ℕ → Entry
view arch m t i = if (t == arch.tmp_table) && (i == tmp_page) then marker else m.table t i

-- `rank t` is the number of levels from table `t` on, and 0 for a frame that is no table. Above the
-- last level an entry that is present names a table of the next one, no two name the same, and none
-- is a huge page.
pub record IsTree (bits : ℕ) (rank : ℕ → ℕ) (tables : ℕ → ℕ → Entry) : Type 0 where
  pub child : (t i : ℕ) → 2 ≤ rank t → (tables t i).p ≡ true → rank (tables t i).frame + 1 ≡ rank t
  pub unique :
      (t i t' i' : ℕ)
      → 2 ≤ rank t
      → 2 ≤ rank t'
      → (tables t i).p ≡ true
      → (tables t' i').p ≡ true
      → (tables t i).frame ≡ (tables t' i').frame
      → (t ≡ t') × (i ≡ i')
  pub plain : (t i : ℕ) → 2 ≤ rank t → (tables t i).ps ≡ false
  pub fits : (t i : ℕ) → 2 ≤ rank t → (tables t i).p ≡ true → (tables t i).frame < 2 ^ bits

-- The new table `f` without entries, named by entry `i` of `t`.
abbrev pub link : (ℕ → ℕ → Entry) → ℕ → ℕ → ℕ → ℕ → ℕ → Entry
link tables t i f s j =
    if s == f
    then blank
    else if (s == t) && (j == i)
    then record (tables t i) { p = true; rw = true; frame = f }
    else tables s j

abbrev pub set_rank : (ℕ → ℕ) → ℕ → ℕ → ℕ → ℕ
set_rank rank f r s = if s == f then r else rank s
