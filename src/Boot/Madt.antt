-- ===== src/Boot/Madt.antt =====
-- boot32.c: `read_madt` on a table that holds a list of entries.
use smp_boot.Base.{
  ℕ, zero, suc, ◌+◌, ◌%◌, ◌≤◌, ◌<◌, ◌≡◌, ◌≢◌, refl, Bool, true, false, arith, ◌==◌, List, [], ◌∷◌,
  some, ltb, lt→ltb,
}
use smp_boot.Boot.{
  Bytes, word32, HwInfo, check_sum, max_cpu, max_ioapic, read_entry, read_entries, read_madt,
  put_at,
}

-- The entries of the table that matter here, and any other with its type and length.
pub data Entry : Type 0 where
  lapic : (apic_id : ℕ) (enabled : Bool) → Entry
  ioapic : (id adr : ℕ) → Entry
  other : (type len : ℕ) → Entry

abbrev pub size : Entry → ℕ
size (lapic _ _) = 8
size (ioapic _ _) = 12
size (other _ len) = len

-- The bytes at an address are those of an entry.
abbrev pub Holds : Bytes → ℕ → Entry → Type 0
Holds mem a (lapic apic_id enabled) =
    (mem a ≡ 0)
    × (mem (a + 1) ≡ 8)
    × (mem (a + 3) ≡ apic_id)
    × ((word32 mem (a + 4) % 2 == 1) ≡ enabled)
Holds mem a (ioapic id adr) =
    (mem a ≡ 1) × (mem (a + 1) ≡ 12) × (mem (a + 2) ≡ id) × (word32 mem (a + 4) ≡ adr)
Holds mem a (other type len) =
    (mem a ≡ type) × (mem (a + 1) ≡ len) × (type ≢ 0) × (type ≢ 1) × (0 < len)

-- The entries of a list stand one behind the other, from byte `i` to byte `end`.
abbrev pub Layout : Bytes → ℕ → ℕ → List Entry → ℕ → Type 0
Layout mem base i [] end = i ≡ end
Layout mem base i (e ∷ es) end = Holds mem (base + i) e × Layout mem base (i + size e) es end

-- What the table says of the processors and the I/O APICs.
abbrev pub enter : Entry → HwInfo → HwInfo
enter (lapic apic_id true) hw = record hw {
  cpu_lapic_id = put_at hw.cpu_lapic_id hw.cpu_cnt apic_id;
  cpu_cnt = hw.cpu_cnt + 1;
}
enter (lapic apic_id false) hw = hw
enter (ioapic id adr) hw = record hw {
  ioapic_id = put_at hw.ioapic_id hw.ioapic_cnt id;
  ioapic_adr = put_at hw.ioapic_adr hw.ioapic_cnt adr;
  ioapic_cnt = hw.ioapic_cnt + 1;
}
enter (other _ _) hw = hw

abbrev pub enter_all : List Entry → HwInfo → HwInfo
enter_all [] hw = hw
enter_all (e ∷ es) hw = enter_all es (enter e hw)

read_entry-enter :
    (mem : Bytes) (a : ℕ) (e : Entry) (hw : HwInfo)
    → Holds mem a e
    → read_entry mem a hw ≡ enter e hw
unfolding read_entry
read_entry-enter mem a (lapic apic_id true) hw h = ground arith
read_entry-enter mem a (lapic apic_id false) hw h = ground arith
read_entry-enter mem a (ioapic id adr) hw h = ground arith
read_entry-enter mem a (other type len) hw h = ground arith

length-entry :
    (mem : Bytes) (a : ℕ) (e : Entry) → Holds mem a e → (mem (a + 1) ≡ size e) × (0 < size e)
length-entry mem a (lapic apic_id enabled) h = omega arith
length-entry mem a (ioapic id adr) h = omega arith
length-entry mem a (other type len) h = omega arith

Layout-le : (es : List Entry) (mem : Bytes) (base i end : ℕ) → Layout mem base i es end → i ≤ end
Layout-le [] mem base i end h = omega arith
Layout-le (e ∷ es) mem base i end h = omega (arith, Layout-le es mem base (i + size e) end h.1)

read_entries-enter_all :
    (es : List Entry) (fuel : ℕ) (mem : Bytes) (offset length i end : ℕ) (hw : HwInfo)
    → length ≡ 44 + end
    → end ≤ fuel + i
    → Layout mem (offset + 44) i es end
    → read_entries fuel mem offset length i hw ≡ some (enter_all es hw)
unfolding read_entries
read_entries-enter_all [] zero mem offset length i end hw total enough h = ground arith
read_entries-enter_all [] (suc fuel) mem offset length i end hw total enough h = ground arith
read_entries-enter_all (e ∷ es) zero mem offset length i end hw total enough h = absurd (
    omega (
      arith,
      length-entry mem (offset + 44 + i) e h.0,
      Layout-le es mem (offset + 44) (i + size e) end h.1,
    ))
read_entries-enter_all (e ∷ es) (suc fuel) mem offset length i end hw total enough h =
    let a = offset + 44 + i in
    let len = length-entry mem a e h.0 in
    let below = Layout-le es mem (offset + 44) (i + size e) end h.1 in
    let more : ltb (44 + i) length ≡ true = lt→ltb (44 + i) length (omega arith) in
    rw (more, read_entry-enter mem a e hw h.0, len.0)
      (read_entries-enter_all es fuel mem offset length (i + size e) end (enter e hw) total
        (omega arith) h.1)

-- The processors and the I/O APICs that a table lists as usable.
abbrev pub cpus : List Entry → ℕ
cpus [] = 0
cpus (lapic apic_id true ∷ es) = suc (cpus es)
cpus (e ∷ es) = cpus es

abbrev pub ioapics : List Entry → ℕ
ioapics [] = 0
ioapics (ioapic id adr ∷ es) = suc (ioapics es)
ioapics (e ∷ es) = ioapics es

counts-enter_all :
    (es : List Entry) (hw : HwInfo)
    → ((enter_all es hw).cpu_cnt ≡ hw.cpu_cnt + cpus es)
      × ((enter_all es hw).ioapic_cnt ≡ hw.ioapic_cnt + ioapics es)
counts-enter_all [] hw = omega arith
counts-enter_all (lapic apic_id true ∷ es) hw =
    omega (arith, counts-enter_all es (enter (lapic apic_id true) hw))
counts-enter_all (lapic apic_id false ∷ es) hw = counts-enter_all es hw
counts-enter_all (ioapic id adr ∷ es) hw =
    omega (arith, counts-enter_all es (enter (ioapic id adr) hw))
counts-enter_all (other type len ∷ es) hw = counts-enter_all es hw

-- What `read_madt` starts from.
abbrev pub emptied : ℕ → HwInfo → HwInfo
emptied adr hw = record hw { lapic_adr = adr; cpu_cnt = 0; ioapic_cnt = 0 }

-- On a table with a correct checksum whose entries fill it, with no more enabled processors and I/O
-- APICs than the arrays of `hw_info` hold, 16 and 1, `read_madt` terminates, enters exactly
-- the enabled processors and the I/O APICs in order, and counts them.
pub read_madt-enter_all :
    (es : List Entry) (mem : Bytes) (offset end : ℕ) (hw : HwInfo)
    → word32 mem (offset + 4) ≡ 44 + end
    → check_sum mem offset (44 + end) ≡ 0
    → Layout mem (offset + 44) 0 es end
    → cpus es ≤ max_cpu
    → ioapics es ≤ max_ioapic
    → let hw' = enter_all es (emptied (word32 mem (offset + 36)) hw) in
      (read_madt mem offset hw ≡ some (true, hw'))
      × (hw'.cpu_cnt ≡ cpus es)
      × (hw'.ioapic_cnt ≡ ioapics es)
unfolding read_madt
read_madt-enter_all es mem offset end hw len sum h room_cpu room_ioapic =
    let start = emptied (word32 mem (offset + 36)) hw in
    let run =
      read_entries-enter_all es (44 + end) mem offset (44 + end) 0 end start refl (omega arith) h in
    let counts = counts-enter_all es start in (rw (len, sum, run) refl, omega arith, omega arith)
