-- ===== src/Memory/Translate.antt =====
-- mm.c: `virt_to_phys` and `reconf_adr`, and the walk of the page tables as the processor does it.
pub mod Laws
use smp_boot.Base.{
  ◌≢◌, ◌<◌, ◌-◌, ℕ, ◌+◌, ◌*◌, ◌/◌, ◌%◌, ◌^◌, Bool, true, false, not, Option, none, some, ◌==◌,
  if◌then◌else◌, bit_and,
}
use smp_boot.Clib.Masks.{is_mask_set, mask_clear}
use smp_boot.Memory.Paging.{
  Machine, Entry, Arch, x86_64, x86_32, window, map_temporary, reconf_page, map_pwt, map_pcd,
  frame_1g, frame_2m, frame_4m, pt_index, pd3_index, pd2_index, pd1_index, offset, offset_2m,
  offset_1g, pt_index32, pd1_index32, offset_4m,
}

-- `virt_to_phys` of the 64-bit build, with 0 for an address that is not mapped.
unfoldable pub virt_to_phys : ℕ → Machine → ℕ × Machine
virt_to_phys adr m =
    let e1 = m.table m.pd1 (pd1_index adr) in
    if not e1.p
    then (0, m)
    else let m1 = map_temporary x86_64 e1.frame m in
      let e2 = m1.table (window x86_64 m1) (pd2_index adr) in
      if not e2.p
      then (0, m1)
      else if e2.ps
      then (frame_1g e2 * 2 ^ (12 + 2 * 9) + offset_1g adr, m1)
      else let m2 = map_temporary x86_64 e2.frame m1 in
        let e3 = m2.table (window x86_64 m2) (pd3_index adr) in
        if not e3.p
        then (0, m2)
        else if e3.ps
        then (frame_2m e3 * 2 ^ (12 + 9) + offset_2m adr, m2)
        else let m3 = map_temporary x86_64 e3.frame m2 in
          let e4 = m3.table (window x86_64 m3) (pt_index adr) in
          if e4.p then (e4.frame * 2 ^ 12 + offset adr, m3) else (0, m3)

-- `virt_to_phys` of the 32-bit build.
unfoldable pub virt_to_phys32 : ℕ → Machine → ℕ × Machine
virt_to_phys32 adr m =
    let e1 = m.table m.pd1 (pd1_index32 adr) in
    if not e1.p
    then (0, m)
    else if e1.ps
    then (frame_4m e1 * 2 ^ (12 + 10) + offset_4m adr, m)
    else let m1 = map_temporary x86_32 e1.frame m in
      let e2 = m1.table (window x86_32 m1) (pt_index32 adr) in
      if e2.p then (e2.frame * 2 ^ 12 + offset adr, m1) else (0, m1)

-- `reconf_adr` of the 64-bit build: a flag beside the two leaves all as it is, and so does an
-- address that is not mapped (but for the window).
unfoldable pub reconf_adr : ℕ → ℕ → Machine → Machine
reconf_adr adr flags m =
    if is_mask_set (mask_clear 32 flags (map_pwt + map_pcd)) (2 ^ 32 - 1)
    then m
    else let e1 = m.table m.pd1 (pd1_index adr) in
      if not e1.p
      then m
      else let m1 = map_temporary x86_64 e1.frame m in
        let e2 = m1.table (window x86_64 m1) (pd2_index adr) in
        if not e2.p
        then m1
        else let m2 = map_temporary x86_64 e2.frame m1 in
          let e3 = m2.table (window x86_64 m2) (pd3_index adr) in
          if not e3.p
          then m2
          else let m3 = map_temporary x86_64 e3.frame m2 in
            reconf_page x86_64 (pt_index adr) flags m3

-- `reconf_adr` of the 32-bit build.
unfoldable pub reconf_adr32 : ℕ → ℕ → Machine → Machine
reconf_adr32 adr flags m =
    if is_mask_set (mask_clear 32 flags (map_pwt + map_pcd)) (2 ^ 32 - 1)
    then m
    else let e1 = m.table m.pd1 (pd1_index32 adr) in
      if not e1.p
      then m
      else let m1 = map_temporary x86_32 e1.frame m in reconf_page x86_32 (pt_index32 adr) flags m1

-- The fields of a linear address, as the processor takes them: nine bits for each of the four
-- levels, from bit 39, 30, 21 and 12 on.
abbrev pub level4 : ℕ → ℕ
level4 adr = adr / 2 ^ 39 % 512

abbrev pub level3 : ℕ → ℕ
level3 adr = adr / 2 ^ 30 % 512

abbrev pub level2 : ℕ → ℕ
level2 adr = adr / 2 ^ 21 % 512

abbrev pub level1 : ℕ → ℕ
level1 adr = adr / 2 ^ 12 % 512

-- The entry that the processor ends its walk at, and the level of that entry.
pub data Leaf : Type 0 where
  page_1g page_2m page_4k : Entry → Leaf

abbrev pub walk : ℕ → Machine → Option Leaf
walk adr m =
    let e1 = m.table m.pd1 (level4 adr) in
    let e2 = m.table e1.frame (level3 adr) in
    let e3 = m.table e2.frame (level2 adr) in
    let e4 = m.table e3.frame (level1 adr) in
    if not e1.p
    then none
    else if not e2.p
    then none
    else if e2.ps
    then some (page_1g e2)
    else if not e3.p
    then none
    else if e3.ps
    then some (page_2m e3)
    else if not e4.p
    then none
    else some (page_4k e4)

-- The physical address of an address in the page at which its walk ends; 0 where the walk fails.
abbrev pub physical : ℕ → Option Leaf → ℕ
physical adr none = 0
physical adr (some (page_1g e)) = e.frame / 2 ^ 18 * 2 ^ 30 + adr % 2 ^ 30
physical adr (some (page_2m e)) = e.frame / 2 ^ 9 * 2 ^ 21 + adr % 2 ^ 21
physical adr (some (page_4k e)) = e.frame * 2 ^ 12 + adr % 2 ^ 12

-- The tables on the way of an address are none that the window is made of, and the entries hold
-- frames that the hardware's field can hold.
pub record IsApart (adr : ℕ) (m : Machine) : Type 0 where
  pub root : m.pd1 ≢ x86_64.tmp_table
  pub second : (m.table m.pd1 (level4 adr)).frame ≢ x86_64.tmp_table
  pub third : (m.table (m.table m.pd1 (level4 adr)).frame (level3 adr)).frame ≢ x86_64.tmp_table
  pub fourth :
      (m.table (m.table (m.table m.pd1 (level4 adr)).frame (level3 adr)).frame (level2 adr)).frame
      ≢ x86_64.tmp_table
  pub fits : (t i : ℕ) → (m.table t i).frame < 2 ^ 40
