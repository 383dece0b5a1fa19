-- ===== src/Memory/Tree/View.antt =====
-- mm.c: the tree of page tables under the moves of the window, and with a new table.
use smp_boot.Base.{
  ℕ, ◌%◌, ◌^◌, ◌≤◌, ◌<◌, ◌≡◌, ◌≢◌, refl, true, false, some, ◌==◌, ◌&&◌, if◌then◌else◌, arith, ap,
  ◌∙◌,
}
use mathlib.Core.Path.{fun_ext}
use native.Mathlib.Nat.{mod-eq_of_lt}
use smp_boot.Memory.Freemap.{Freemap, frame_type_pt, get_free_frame}
use smp_boot.Memory.Paging.{
  Entry, Machine, Arch, blank, window, write_entry, clear_table, map_temporary, enter_table,
}
use smp_boot.Memory.Translate.Laws.{window-map_temporary}
use smp_boot.Memory.Tree.{view, link}

module _ (arch : Arch) where
  pub view-map_temporary : (f : ℕ) (m : Machine) → view arch (map_temporary arch f m) ≡ view arch m
  unfolding map_temporary view
  view-map_temporary f m = fun_ext λ s. fun_ext λ j. ground arith

  pub freemap-map_temporary : (f : ℕ) (m : Machine) → (map_temporary arch f m).freemap ≡ m.freemap
  unfolding map_temporary
  freemap-map_temporary f m = ground arith

  pub pd1-map_temporary : (f : ℕ) (m : Machine) → (map_temporary arch f m).pd1 ≡ m.pd1
  unfolding map_temporary
  pd1-map_temporary f m = ground arith

  pub view-other : (m : Machine) (t i : ℕ) → t ≢ arch.tmp_table → view arch m t i ≡ m.table t i
  unfolding view
  view-other m t i apart = ground arith

  -- A table above the last level is not the window's.
  pub view-upper :
      (rank : ℕ → ℕ) (m : Machine) (t i : ℕ)
      → rank arch.tmp_table ≡ 1
      → 2 ≤ rank t
      → view arch m t i ≡ m.table t i
  view-upper rank m t i low high = view-other m t i (λ e. omega (arith, ap rank e))

  pub entry-write_entry : (m : Machine) (t i : ℕ) (e : Entry) → (write_entry m t i e).table t i ≡ e
  entry-write_entry m t i e =
      let same : (t == t) ≡ true = ground arith in
      let at : (i == i) ≡ true = ground arith in rw (same, at)

  pub view-write_entry :
      (m : Machine) (t i : ℕ) (e : Entry) (s j : ℕ)
      → t ≢ arch.tmp_table
      → view arch (write_entry m t i e) s j ≡ (if (s == t) && (j == i) then e else view arch m s j)
  unfolding view
  view-write_entry m t i e s j upper = ground arith

  pub view-clear_table :
      (m : Machine) (f s j : ℕ)
      → f ≢ arch.tmp_table
      → view arch (clear_table m f) s j ≡ (if s == f then blank else view arch m s j)
  unfolding view
  view-clear_table m f s j other = ground arith

  pub view-freemap :
      (m : Machine) (freemap : Freemap) (s j : ℕ)
      → view arch (record m { freemap = freemap }) s j ≡ view arch m s j
  unfolding view
  view-freemap m freemap s j = refl

  -- The state of a level that makes a table: the entry is written, and the new table cleared.
  pub made : Machine → Freemap → ℕ → ℕ → ℕ → Machine
  made m freemap t i f =
      let linked =
        write_entry (record m { freemap = freemap }) t i
          (record (m.table t i) { p = true; rw = true; frame = f % 2 ^ arch.frame_bits }) in
      let shown = map_temporary arch (linked.table t i).frame linked in
      clear_table shown (window arch shown)

  pub made-eq :
      (m : Machine) (freemap : Freemap) (t i f : ℕ)
      → f < 2 ^ arch.frame_bits
      → let e = record (m.table t i) { p = true; rw = true; frame = f } in
        made m freemap t i f
        ≡ clear_table (map_temporary arch f (write_entry (record m { freemap = freemap }) t i e)) f
  unfolding made
  made-eq m freemap t i f small =
      let e = record (m.table t i) { p = true; rw = true; frame = f } in
      let linked = write_entry (record m { freemap = freemap }) t i e in
      let fits : f % 2 ^ arch.frame_bits ≡ f = mod-eq_of_lt small in
      rw (
        fits,
        entry-write_entry (record m { freemap = freemap }) t i e,
        window-map_temporary arch f linked small,
      )

  pub view-made :
      (m : Machine) (freemap : Freemap) (t i f : ℕ)
      → f < 2 ^ arch.frame_bits
      → f ≢ arch.tmp_table
      → t ≢ arch.tmp_table
      → view arch (made m freemap t i f) ≡ link (view arch m) t i f
  view-made m freemap t i f small other upper =
      let e = record (m.table t i) { p = true; rw = true; frame = f } in
      let linked = write_entry (record m { freemap = freemap }) t i e in
      let shown = map_temporary arch f linked in
      ap (view arch) (made-eq m freemap t i f small)
      ∙ fun_ext λ s. fun_ext λ j.
        view-clear_table shown f s j other
        ∙ rw (
          ap (λ (v : ℕ → ℕ → Entry). v s j) (view-map_temporary f linked),
          view-write_entry (record m { freemap = freemap }) t i e s j upper,
          view-freemap m freemap s j,
          view-other m t i upper,
        )

  pub freemap-made :
      (m : Machine) (freemap : Freemap) (t i f : ℕ) → (made m freemap t i f).freemap ≡ freemap
  unfolding made
  freemap-made m freemap t i f = freemap-map_temporary _ _

  pub pd1-made : (m : Machine) (freemap : Freemap) (t i f : ℕ) → (made m freemap t i f).pd1 ≡ m.pd1
  unfolding made
  pd1-made m freemap t i f = pd1-map_temporary _ _

  pub window-clear_table :
      (m : Machine) (f : ℕ) → f ≢ arch.tmp_table → window arch (clear_table m f) ≡ window arch m
  window-clear_table m f other = ground arith

  pub window-made :
      (m : Machine) (freemap : Freemap) (t i f : ℕ)
      → f < 2 ^ arch.frame_bits
      → f ≢ arch.tmp_table
      → window arch (made m freemap t i f) ≡ f
  window-made m freemap t i f small other =
      let e = record (m.table t i) { p = true; rw = true; frame = f } in
      let linked = write_entry (record m { freemap = freemap }) t i e in
      rw (made-eq m freemap t i f small) (
        window-clear_table (map_temporary arch f linked) f other
        ∙ window-map_temporary arch f linked small)

  pub enter_table-made :
      (one_shl : ℕ → ℕ) (m : Machine) (t i f : ℕ) (freemap : Freemap)
      → (m.table t i).p ≡ false
      → get_free_frame arch.ulong_bits one_shl frame_type_pt m.freemap ≡ some (f, freemap)
      → enter_table arch one_shl t i m ≡ some (made m freemap t i f)
  unfolding enter_table made
  enter_table-made one_shl m t i f freemap absent given = simp (absent, given)
