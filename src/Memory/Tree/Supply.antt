-- ===== src/Memory/Tree/Supply.antt =====
-- mm.c: `map_frame_to_adr` and the frames for the page tables that it may need.
use smp_boot.Base.{ℕ, zero, suc, ◌^◌, ◌<◌, ◌≡◌, refl, sym, false, some, arith, Bool-cases, inl, inr}
use mathlib.Core.Path.{subst}
use smp_boot.Clib.Masks.{is_mask_set}
use smp_boot.Memory.Freemap.{Freemap, frame_type_pt, frame_type_4k, get_free_frame}
use smp_boot.Memory.Freemap.Scan.{IsShift}
use smp_boot.Memory.Paging.{
  Machine, x86_64, window, map_temporary, enter_table, map_page, map_frame_to_adr, map_huge,
  pd1_index, pd2_index, pd3_index, pt_index,
}
use smp_boot.Memory.Tree.View.{made, enter_table-made, freemap-made, freemap-map_temporary}
use smp_boot.Memory.Tree.Maps.{IsMachine, Maps, map_frame_to_adr-Maps}

module _ (one_shl : ℕ → ℕ) where
  -- `get_free_frame` gives out a frame of a type, and leaves a bitmap with a property.
  abbrev pub Grant : ℕ → Freemap → (Freemap → Type 0) → Type 0
  Grant type m P =
      (f : ℕ) × (m' : Freemap) × (get_free_frame 64 one_shl type m ≡ some (f, m')) × P m'

  -- `n` frames can be given out one after the other, whatever their types.
  abbrev pub Supply : ℕ → Freemap → Type 0
  Supply zero m = Unit
  Supply (suc n) m = Grant frame_type_pt m (Supply n) × Grant frame_type_4k m (Supply n)

  Supply-fewer : (n : ℕ) (m : Freemap) → Supply (suc n) m → Supply n m
  Supply-fewer zero m s = tt
  Supply-fewer (suc n) m ((f, m', given, rest), (g, l, given', rest')) =
      ((f, m', given, Supply-fewer n m' rest), (g, l, given', Supply-fewer n l rest'))

  enter_table-Supply :
      (n t i : ℕ) (m : Machine)
      → Supply (suc n) m.freemap
      → (m' : Machine) × (enter_table x86_64 one_shl t i m ≡ some m') × Supply n m'.freemap
  unfolding enter_table
  enter_table-Supply n t i m supply = elim (Bool-cases (m.table t i).p) [
    | inl there ↦
        let f = (m.table t i).frame in
        (
          map_temporary x86_64 f m,
          rw there refl,
          subst (Supply n) (sym (freemap-map_temporary x86_64 f m))
              (Supply-fewer n m.freemap supply),
        )
    | inr absent ↦
        let (f, freemap, given, rest) = supply.0 in
        (
          made x86_64 m freemap t i f,
          enter_table-made x86_64 one_shl m t i f freemap absent given,
          subst (Supply n) (sym (freemap-made x86_64 m freemap t i f)) rest,
        )
  ]

  freemap-map_page :
      (frame i flags : ℕ) (m : Machine) → (map_page x86_64 frame i flags m).freemap ≡ m.freemap
  unfolding map_page
  freemap-map_page frame i flags m = ground arith

  pub map_frame_to_adr-Supply :
      (n frame adr flags : ℕ) (m : Machine)
      → is_mask_set flags map_huge ≡ false
      → Supply (suc (suc (suc n))) m.freemap
      → (m' : Machine) × (map_frame_to_adr one_shl frame adr flags m ≡ some m')
        × Supply n m'.freemap
  unfolding map_frame_to_adr
  map_frame_to_adr-Supply n frame adr flags m small supply =
      let (m1, first, supply1) = enter_table-Supply (suc (suc n)) m.pd1 (pd1_index adr) m supply in
      let (m2, second, supply2) =
        enter_table-Supply (suc n) (window x86_64 m1) (pd2_index adr) m1 supply1 in
      let (m3, third, supply3) =
        enter_table-Supply n (window x86_64 m2) (pd3_index adr) m2 supply2 in
      (
        map_page x86_64 frame (pt_index adr) flags m3,
        rw (small, first, second, third) refl,
        subst (Supply n) (sym (freemap-map_page frame (pt_index adr) flags m3)) supply3,
      )

-- Where the page tables form a tree and three frames can be given out, `map_frame_to_adr` without
-- flags for a huge page returns: it maps a frame that fits into an entry at its address, if that
-- was free, and leaves every other page as it is, apart from the window that it works through.
pub map_frame_to_adr-total :
    {one_shl : ℕ → ℕ} (shift : IsShift 64 one_shl) (frame adr flags : ℕ) (m : Machine)
    → frame < 2 ^ 40
    → IsMachine one_shl m
    → is_mask_set flags map_huge ≡ false
    → Supply one_shl 3 m.freemap
    → (m' : Machine) × (map_frame_to_adr one_shl frame adr flags m ≡ some m')
      × Maps one_shl frame adr m m'
map_frame_to_adr-total {one_shl} shift frame adr flags m small is plain supply =
    let (m', e, left) = map_frame_to_adr-Supply one_shl 0 frame adr flags m plain supply in
    (m', e, map_frame_to_adr-Maps shift frame adr flags m small is e)
