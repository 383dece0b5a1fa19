-- ===== src/Memory/Translate/Laws.antt =====
-- mm.c: `virt_to_phys` agrees with the processor's walk.
use smp_boot.Base.{ℕ, ◌^◌, ◌<◌, ◌≡◌, ◌≢◌, arith, ◌∙◌}
use native.Mathlib.Nat.{mod-eq_of_lt}
use smp_boot.Memory.Paging.{
  Machine, Arch, x86_64, window, map_temporary, pt_index, pd3_index, pd2_index, pd1_index,
}
use smp_boot.Memory.Translate.{virt_to_phys, walk, physical, IsApart}

module _ (arch : Arch) where
  -- The window shows the frame that it was asked for.
  pub window-map_temporary :
      (f : ℕ) (m : Machine) → f < 2 ^ arch.frame_bits → window arch (map_temporary arch f m) ≡ f
  unfolding map_temporary
  window-map_temporary f m h = ground (arith, mod-eq_of_lt {n = f} {m = 2 ^ arch.frame_bits} h)

  -- Moving the window leaves every table alone but the one that holds its entry.
  pub table-map_temporary :
      (f : ℕ) (m : Machine) (t i : ℕ)
      → t ≢ arch.tmp_table
      → (map_temporary arch f m).table t i ≡ m.table t i
  unfolding map_temporary
  table-map_temporary f m t i h = ground arith

  -- Reading through the window is reading the frame that it was asked for.
  pub entry-map_temporary :
      (f : ℕ) (m : Machine) (i : ℕ)
      → f < 2 ^ arch.frame_bits
      → f ≢ arch.tmp_table
      → (let m' = map_temporary arch f m in m'.table (window arch m') i) ≡ m.table f i
  entry-map_temporary f m i fits apart =
      rw (window-map_temporary f m fits) (table-map_temporary f m f i apart)

-- Where the window's table lies apart from the tables of the walk, `virt_to_phys` gives the address
-- that the processor's own walk gives, and 0 where it faults.
pub virt_to_phys-walk :
    (adr : ℕ) (m : Machine) → IsApart adr m → (virt_to_phys adr m).0 ≡ physical adr (walk adr m)
unfolding virt_to_phys
virt_to_phys-walk adr m apart =
    let e1 = m.table m.pd1 (pd1_index adr) in
    let m1 = map_temporary x86_64 e1.frame m in
    let e2 = m.table e1.frame (pd2_index adr) in
    let m2 = map_temporary x86_64 e2.frame m1 in
    let e3 = m.table e2.frame (pd3_index adr) in
    let m3 = map_temporary x86_64 e3.frame m2 in
    let shown2 =
      entry-map_temporary x86_64 e1.frame m (pd2_index adr) (apart.fits _ _) apart.second in
    let shown3 =
      entry-map_temporary x86_64 e2.frame m1 (pd3_index adr) (apart.fits _ _) apart.third
      ∙ table-map_temporary x86_64 e1.frame m e2.frame (pd3_index adr) apart.third in
    let shown4 =
      entry-map_temporary x86_64 e3.frame m2 (pt_index adr) (apart.fits _ _) apart.fourth
      ∙ table-map_temporary x86_64 e2.frame m1 e3.frame (pt_index adr) apart.fourth
      ∙ table-map_temporary x86_64 e1.frame m e3.frame (pt_index adr) apart.fourth in
    rw (shown2, shown3, shown4) (ground arith)
