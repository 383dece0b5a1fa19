-- ===== src/Memory/Setup.antt =====
-- mm.c: the part of `mm_init` that builds the first page tables of the 32-bit build.
use smp_boot.Base.{
  ℕ, zero, suc, ◌+◌, ◌-◌, ◌*◌, ◌%◌, ◌^◌, ◌<◌, ◌≢◌, ◌≡◌, refl, ◌∙◌, true, false, arith, ◌==◌, leb,
  ltb, ◌&&◌, if◌then◌else◌,
}
use smp_boot.Memory.Paging.{
  Machine, Entry, blank, x86_32, tmp_page, map_temporary, write_entry, clear_table, pt_index32,
  pd1_index32, offset,
}
use smp_boot.Memory.Translate.{virt_to_phys32}

-- `frame`, `rw` and `p` of an entry are set, the rest stays.
abbrev pub map_entry : Machine → ℕ → ℕ → ℕ → Machine
map_entry m t i frame =
    write_entry m t i (record (m.table t i) { frame = frame % 2 ^ 20; rw = true; p = true })

-- The loop of the identity mapping, by the rounds left.
unfoldable pub identity_entries : ℕ → ℕ → ℕ → Machine → Machine
identity_entries zero t u m = m
identity_entries (suc rounds) t u m = identity_entries rounds t (u + 1) (map_entry m t u u)

-- `pd1` is frame 1, and the table of the APICs is frame 3, which is not cleared.
unfoldable pub first_tables32 : Machine → Machine
first_tables32 m =
    let t = x86_32.tmp_table in
    let cleared = clear_table (clear_table (record m { pd1 = 0x1 }) 0x1) t in
    let low = identity_entries 1024 t 0 (map_entry cleared 0x1 0 t) in
    let apics = map_entry low 0x1 (1023 - 4) 0x3 in
    map_entry (map_entry apics 0x3 0 0xfec00) 0x3 512 0xfee00

table-identity_entries :
    (rounds t u : ℕ) (m : Machine) (s i : ℕ)
    → (identity_entries rounds t u m).table s i ≡ (
        if (s == t) && (leb u i && ltb i (u + rounds))
        then record (m.table s i) { frame = i % 2 ^ 20; rw = true; p = true }
        else m.table s i)
unfolding identity_entries
table-identity_entries zero t u m s i = ground arith
table-identity_entries (suc rounds) t u m s i =
    ground (arith, table-identity_entries rounds t (u + 1) (map_entry m t u u) s i)

pd1-identity_entries : (rounds t u : ℕ) (m : Machine) → (identity_entries rounds t u m).pd1 ≡ m.pd1
unfolding identity_entries
pd1-identity_entries zero t u m = refl
pd1-identity_entries (suc rounds) t u m = pd1-identity_entries rounds t (u + 1) (map_entry m t u u)

-- An entry that maps `frame`, with nothing else set.
abbrev pub mapping : ℕ → Entry
mapping frame = record blank { frame = frame; rw = true; p = true }

pd1-first_tables32 : (m : Machine) → (first_tables32 m).pd1 ≡ 1
unfolding first_tables32
pd1-first_tables32 m =
    let t = x86_32.tmp_table in
    let cleared = clear_table (clear_table (record m { pd1 = 0x1 }) 0x1) t in
    pd1-identity_entries 1024 t 0 (map_entry cleared 0x1 0 t)

root-first_tables32 : (m : Machine) → (first_tables32 m).table 1 0 ≡ mapping 2
unfolding first_tables32
root-first_tables32 m =
    let t = x86_32.tmp_table in
    let cleared = clear_table (clear_table (record m { pd1 = 0x1 }) 0x1) t in
    table-identity_entries 1024 t 0 (map_entry cleared 0x1 0 t) 1 0

low-first_tables32 : (m : Machine) (i : ℕ) → i < 1024 → (first_tables32 m).table 2 i ≡ mapping i
unfolding first_tables32
low-first_tables32 m i in_table =
    let t = x86_32.tmp_table in
    let cleared = clear_table (clear_table (record m { pd1 = 0x1 }) 0x1) t in
    let inside : (leb 0 i && ltb i 1024) ≡ true = ground arith in
    let same : i % 2 ^ 20 ≡ i = omega arith in
    table-identity_entries 1024 t 0 (map_entry cleared 0x1 0 t) 2 i ∙ rw (inside, same)

-- With the first tables the lowest 4 MB are mapped to themselves, but for the page of the window.
pub virt_to_phys32-first_tables32 :
    (m : Machine) (adr : ℕ)
    → adr < 2 ^ 22
    → pt_index32 adr ≢ tmp_page
    → (virt_to_phys32 adr (first_tables32 m)).0 ≡ adr
unfolding virt_to_phys32 map_temporary
virt_to_phys32-first_tables32 m adr low other =
    let tables = first_tables32 m in
    let first : pd1_index32 adr ≡ 0 = omega arith in
    let page_in : pt_index32 adr < 1024 = omega arith in
    let differs : (pt_index32 adr == tmp_page) ≡ false = ground arith in
    let sum : pt_index32 adr * 2 ^ 12 + offset adr ≡ adr = omega arith in
    rw (
      first,
      pd1-first_tables32 m,
      root-first_tables32 m,
      low-first_tables32 m tmp_page (omega arith),
      differs,
      low-first_tables32 m (pt_index32 adr) page_in,
      sum,
    )
