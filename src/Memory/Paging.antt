-- ===== src/Memory/Paging.antt =====
-- mm.c: page tables, reached through the window that `map_temporary` moves.
-- Not modelled: the TLB and the caches (each change of a mapping is followed by `invlpg`), and the
-- messages, which the configured verbosity leaves out.
use smp_boot.Base.{
  ℕ, ◌+◌, ◌*◌, ◌/◌, ◌%◌, ◌^◌, Bool, true, false, Option, none, some, ◌==◌, if◌then◌else◌,
}
use smp_boot.Clib.Masks.{is_mask_set}
use smp_boot.Memory.Freemap.{Freemap, frame_type_pt, get_free_frame}

-- An entry of any level, mm_struct.h. Bits 6 and 7 have other names in other views of the union:
-- `ign` is also `d`, and `ps` is `pat` in a page table.
pub record Entry : Type 0 where
  pub p : Bool
  pub rw : Bool
  pub us : Bool
  pub pwt : Bool
  pub pcd : Bool
  pub a : Bool
  pub ign : Bool
  pub ps : Bool
  pub ign2 : Bool
  pub avl1 : ℕ
  pub frame : ℕ
  pub avl2 : ℕ
  pub nx : Bool

-- An entry of a table that `memset` cleared.
abbrev pub blank : Entry
blank = record {
  p = false;
  rw = false;
  us = false;
  pwt = false;
  pcd = false;
  a = false;
  ign = false;
  ps = false;
  ign2 = false;
  avl1 = 0;
  frame = 0;
  avl2 = 0;
  nx = false;
}

-- `frame1G`, bits 30 to 51 of an entry whose bits 12 to 51 are `frame`
abbrev pub frame_1g : Entry → ℕ
frame_1g e = e.frame / 2 ^ 18

-- `frame2M`, bits 21 to 51
abbrev pub frame_2m : Entry → ℕ
frame_2m e = e.frame / 2 ^ 9

-- `frame4M` of the 32-bit structure, bits 22 to 31 of an entry whose bits 12 to 31 are `frame`
abbrev pub frame_4m : Entry → ℕ
frame_4m e = e.frame / 2 ^ 10

-- Physical memory as tables: the entry at an index of a frame. `pd1` is the frame of the first
-- level table, `freemap` the state of `get_free_frame`.
pub record Machine : Type 0 where
  pub table : ℕ → ℕ → Entry
  pub pd1 : ℕ
  pub freemap : Freemap

-- What differs between the two builds: the bits of `unsigned long`, the frame of the page table
-- that `map_temporary` writes, and the bits of `frame` in an entry.
pub record Arch : Type 0 where
  pub ulong_bits : ℕ
  pub tmp_table : ℕ
  pub frame_bits : ℕ

abbrev pub x86_64 : Arch
x86_64 = record { ulong_bits = 64; tmp_table = 0x5; frame_bits = 40 }

abbrev pub x86_32 : Arch
x86_32 = record { ulong_bits = 32; tmp_table = 0x2; frame_bits = 20 }

abbrev pub tmp_page : ℕ
tmp_page = 0x1FF

-- The index and offset functions of the 64-bit build, on an address below 2 ^ 64.
abbrev pub pt_index : ℕ → ℕ
pt_index adr = adr / 2 ^ 12 % 2 ^ 9

abbrev pub pd3_index : ℕ → ℕ
pd3_index adr = adr / 2 ^ (12 + 9) % 2 ^ 9

abbrev pub pd2_index : ℕ → ℕ
pd2_index adr = adr / 2 ^ (12 + 2 * 9) % 2 ^ 9

abbrev pub pd1_index : ℕ → ℕ
pd1_index adr = adr / 2 ^ (12 + 3 * 9) % 2 ^ 9

abbrev pub offset : ℕ → ℕ
offset adr = adr % 2 ^ 12

abbrev pub offset_2m : ℕ → ℕ
offset_2m adr = adr % 2 ^ (9 + 12)

abbrev pub offset_1g : ℕ → ℕ
offset_1g adr = adr % 2 ^ (9 + 9 + 12)

-- The same functions of the 32-bit build.
abbrev pub pt_index32 : ℕ → ℕ
pt_index32 adr = adr / 2 ^ 12 % 2 ^ 10

abbrev pub pd1_index32 : ℕ → ℕ
pd1_index32 adr = adr / 2 ^ (12 + 10) % 2 ^ 10

abbrev pub offset_4m : ℕ → ℕ
offset_4m adr = adr % 2 ^ (10 + 12)

abbrev pub page_to_adr : ℕ → ℕ
page_to_adr page = page * 2 ^ 12 % 2 ^ 64

abbrev pub map_huge : ℕ
map_huge = 1 + 2 + 4

abbrev pub map_pwt : ℕ
map_pwt = 8

abbrev pub map_pcd : ℕ
map_pcd = 16

-- `t[i] = e`, for a table in frame `t`
abbrev pub write_entry : Machine → ℕ → ℕ → Entry → Machine
write_entry m t i e = record m {
  table = λ s j. if s == t then if j == i then e else m.table s j else m.table s j;
}

-- `memset(t, 0, 4096)`
abbrev pub clear_table : Machine → ℕ → Machine
clear_table m t = record m { table = λ s j. if s == t then blank else m.table s j }

module _ (arch : Arch) where
  open arch use {tmp_table, frame_bits}

  -- The frame that the page `tmp_page` shows: where a pointer from `map_temporary` points now.
  abbrev pub window : Machine → ℕ
  window m = (m.table tmp_table tmp_page).frame

  unfoldable pub map_temporary : ℕ → Machine → Machine
  map_temporary frame m =
      if window m == frame
      then m
      else write_entry m tmp_table tmp_page (record (m.table tmp_table tmp_page) {
        frame = frame % 2 ^ frame_bits;
        rw = true;
        p = true;
        pwt = true;
      })

  -- One level of `map_frame_to_adr`: the table that entry `i` of table `t` names, which is made if
  -- there is none, is put in the window. `none` is the halt of `get_free_frame`.
  unfoldable pub enter_table : (ℕ → ℕ) → ℕ → ℕ → Machine → Option Machine
  enter_table one_shl t i m =
      if (m.table t i).p
      then some (map_temporary (m.table t i).frame m)
      else elim (get_free_frame arch.ulong_bits one_shl frame_type_pt m.freemap) [
        | none ↦ none
        | some (f, freemap) ↦
            let linked =
              write_entry (record m { freemap = freemap }) t i
                (record (m.table t i) { p = true; rw = true; frame = f % 2 ^ frame_bits }) in
            let shown = map_temporary (linked.table t i).frame linked in
            some (clear_table shown (window shown))
      ]

  -- The end of `map_frame_to_adr`, with the page table in the window.
  unfoldable pub map_page : ℕ → ℕ → ℕ → Machine → Machine
  map_page frame i flags m =
      let t = window m in
      let e = m.table t i in
      if e.p
      then m
      else write_entry m t i (record e {
        frame = frame % 2 ^ frame_bits;
        rw = true;
        p = true;
        pwt = if is_mask_set flags map_pwt then true else e.pwt;
        pcd = if is_mask_set flags map_pcd then true else e.pcd;
      })

  -- The end of `reconf_adr`.
  unfoldable pub reconf_page : ℕ → ℕ → Machine → Machine
  reconf_page i flags m =
      let t = window m in
      let e = m.table t i in
      if e.p
      then write_entry m t i
          (record e { pwt = is_mask_set flags map_pwt; pcd = is_mask_set flags map_pcd })
      else m

infixl 5 ◌>>=◌
abbrev pub ◌>>=◌ : {A B : Type 0} → Option A → (A → Option B) → Option B
none >>= f = none
some a >>= f = f a

-- The 64-bit build. `none` is a halt.
module _ (one_shl : ℕ → ℕ) where
  unfoldable pub map_frame_to_adr : ℕ → ℕ → ℕ → Machine → Option Machine
  map_frame_to_adr frame adr flags m = if is_mask_set flags map_huge then none else do
    m1 ← enter_table x86_64 one_shl m.pd1 (pd1_index adr) m
    m2 ← enter_table x86_64 one_shl (window x86_64 m1) (pd2_index adr) m1
    m3 ← enter_table x86_64 one_shl (window x86_64 m2) (pd3_index adr) m2
    some (map_page x86_64 frame (pt_index adr) flags m3)

  unfoldable pub map_frame_to_adr32 : ℕ → ℕ → ℕ → Machine → Option Machine
  map_frame_to_adr32 frame adr flags m = if is_mask_set flags map_huge then none else do
    m1 ← enter_table x86_32 one_shl m.pd1 (pd1_index32 adr) m
    some (map_page x86_32 frame (pt_index32 adr) flags m1)
