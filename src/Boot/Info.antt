-- ===== src/Boot/Info.antt =====
-- boot32.c: `get_info`, which reads the command line and the firmware's tables into `hw_info`. The
-- messages, the halt of very verbose builds, `cpu_features` and the fields that it fills are left
-- out.
pub mod Result
pub mod Tables
use smp_boot.Base.{
  ℕ, zero, suc, ◌+◌, ◌-◌, ◌*◌, ◌/◌, ◌%◌, ◌^◌, Bool, true, false, not, ◌&&◌, ◌||◌, ◌==◌, ltb,
  if◌then◌else◌, Option, none, some, List, [], ◌∷◌,
}
use smp_boot.Clib.Strings.{strncmp}
use smp_boot.Clib.Numbers.{atoi}
use smp_boot.Boot.{
  Bytes, HwInfo, word32, word16, check_sum, search_rsdp, put_at, read_madt, read_mcfg, max_cpu,
}
use smp_boot.Boot.Mps.{read_mps}

-- The fields of `hw_info` that the command line sets.
pub record Options : Type 0 where
  pub cmd_maxcpu : ℕ
  pub cmd_cpumask : ℕ
  pub cmd_noacpi : ℕ
  pub cmd_nomps : ℕ

abbrev pub default_options : Options
default_options = record {
  cmd_maxcpu = max_cpu;
  cmd_cpumask = 0xFFFFFFFF;
  cmd_noacpi = 0;
  cmd_nomps = 0;
}

-- The string at an address, cut after a number of bytes.
unfoldable pub string_at : ℕ → Bytes → ℕ → List ℕ
string_at zero mem a = []
string_at (suc n) mem a =
    let rest = string_at n mem (a + 1) in if mem a == 0 then [] else mem a ∷ rest

-- A 32-bit address space: no pointer moves further.
abbrev pub max_bytes : ℕ
max_bytes = 2 ^ 32

-- `while (*cmdline != ' ' && *cmdline != 0) cmdline++`
unfoldable pub skip_word : ℕ → Bytes → ℕ → Option ℕ
skip_word zero mem a = none
skip_word (suc n) mem a =
    let rest = skip_word n mem (a + 1) in if mem a == b' ' || mem a == 0 then some a else rest

-- Whether `strncmp` finds a word at an address.
abbrev pub starts_with : List ℕ → ℕ → Bytes → ℕ → Bool
starts_with word n mem a = strncmp (string_at n mem a) word n == 0

-- The chain of tests at the end of a word: the options, and where `cmdline` then points.
unfoldable pub read_option : Bytes → ℕ → Options → Options × ℕ
read_option mem a o =
    if starts_with (b' ' ∷ b'm' ∷ b'a' ∷ b'x' ∷ b'c' ∷ b'p' ∷ b'u' ∷ b'=' ∷ []) 8 mem a
    then (record o { cmd_maxcpu = atoi (string_at max_bytes mem (a + 8)) }, a + 8)
    else if starts_with (b' ' ∷ b'c' ∷ b'p' ∷ b'u' ∷ b'm' ∷ b'a' ∷ b's' ∷ b'k' ∷ b'=' ∷ []) 9 mem a
    then (record o { cmd_cpumask = atoi (string_at max_bytes mem (a + 9)) }, a + 9)
    else if starts_with (b' ' ∷ b'n' ∷ b'o' ∷ b'a' ∷ b'c' ∷ b'p' ∷ b'i' ∷ b' ' ∷ []) 8 mem a
    then (record o { cmd_noacpi = 1 }, a + 7)
    else if starts_with (b' ' ∷ b'n' ∷ b'o' ∷ b'm' ∷ b'p' ∷ b's' ∷ b' ' ∷ []) 7 mem a
    then (record o { cmd_nomps = 1 }, a + 6)
    else (o, a)

-- The loop over the command line, that ends 1000 bytes behind its begin. Each round moves on, so
-- that 1000 are enough; a word that never ends is `none`.
unfoldable pub read_cmdline : ℕ → Bytes → ℕ → ℕ → Options → Option Options
read_cmdline zero mem end a o = some o
read_cmdline (suc rounds) mem end a o = elim (skip_word max_bytes mem a) [
  | none ↦ if ltb a end then none else some o
  | some b ↦
      let (o', c) = read_option mem b o in
      let rest = read_cmdline rounds mem end (c + 1) o' in if ltb a end then rest else some o
]

-- The options of the Multiboot structure at an address.
unfoldable pub read_options : Bytes → ℕ → Option Options
read_options mem mb_adr =
    let cmdline = word32 mem (mb_adr + 16) in
    if not (word32 mem mb_adr / 4 % 2 == 1) || cmdline == 0
    then some default_options
    else read_cmdline 1000 mem (cmdline + 1000) cmdline default_options

abbrev pub madt_signature : ℕ
madt_signature = 0x43495041

abbrev pub mcfg_signature : ℕ
mcfg_signature = 0x4746434d

-- The `switch` on the signature of a table.
unfoldable pub read_table : Bytes → ℕ → HwInfo → Option HwInfo
read_table mem a hw =
    if word32 mem a == madt_signature
    then elim (read_madt mem a hw) [ none ↦ none | some r ↦ some r.1 ]
    else if word32 mem a == mcfg_signature
    then read_mcfg mem a hw
    else some hw

-- The loop over the entries of the RSDT.
unfoldable pub read_tables : ℕ → Bytes → ℕ → HwInfo → Option HwInfo
read_tables zero mem entry hw = some hw
read_tables (suc rounds) mem entry hw = elim (read_table mem (word32 mem entry) hw) [
  | none ↦ none
  | some hw' ↦ read_tables rounds mem (entry + 4) hw'
]

-- From the search for the root pointer up to `skip_acpi`; whether the tables gave what is needed,
-- so that `skip_mps` is next.
unfoldable pub read_acpi : Bytes → ℕ → ℕ → HwInfo → Option (Bool × HwInfo)
read_acpi mem ebda_adr ebda_size hw =
    let ebda = search_rsdp mem ebda_adr ebda_size in
    let rsdp = if ebda == 0 then search_rsdp mem 0xE0000 0x20000 else ebda in
    let rsdt = word32 mem (rsdp + 16) in
    let length = word32 mem (rsdt + 4) in
    let rounds = (length + (2 ^ 32 - 36)) % 2 ^ 32 / 4 in
    if rsdp == 0
    then some (false, hw)
    else if not (check_sum mem rsdp 20 == 0)
    then some (false, hw)
    else if not (check_sum mem rsdt length == 0)
    then some (false, hw)
    else elim (read_tables rounds mem (rsdt + 36) hw) [
      | none ↦ none
      | some hw' ↦ some (not (hw'.lapic_adr == 0), hw')
    ]

-- `hw_info` after the `memset`.
abbrev pub no_info : HwInfo
no_info = record {
  lapic_adr = 0;
  cpu_cnt = 0;
  cpu_lapic_id = λ i. 0;
  ioapic_cnt = 0;
  ioapic_id = λ i. 0;
  ioapic_adr = λ i. 0;
  pcie_cnt = 0;
  pcie_base_adr = λ i. 0;
  pcie_grp_nbr = λ i. 0;
  pcie_bus_start = λ i. 0;
  pcie_bus_end = λ i. 0;
}

-- Behind `skip_mps`: a guess for one processor where the tables did not tell enough.
unfoldable pub or_guess : HwInfo → HwInfo
or_guess hw =
    if hw.lapic_adr == 0 || (hw.cpu_cnt == 0 || hw.ioapic_cnt == 0)
    then record hw {
      cpu_cnt = 1;
      cpu_lapic_id = put_at hw.cpu_lapic_id 0 0;
      lapic_adr = 0xfee00000;
      ioapic_cnt = 0;
    }
    else hw

-- The part from `skip_acpi` on.
unfoldable pub finish : Bytes → ℕ → Options → HwInfo → HwInfo
unfolding or_guess
finish mem ebda_adr o hw = or_guess (if o.cmd_nomps == 0 then read_mps mem ebda_adr hw else hw)

pub record Info : Type 0 where
  pub options : Options
  pub ebda_adr : ℕ
  pub ebda_size : ℕ
  pub hw : HwInfo

-- From the BIOS data area on, with the options read.
unfoldable pub read_firmware : Bytes → Options → Option HwInfo
read_firmware mem o =
    let ebda_adr = word16 mem 0x40e * 2 ^ 4 in
    elim (if o.cmd_noacpi == 0
      then read_acpi mem ebda_adr (mem ebda_adr) no_info
      else some (false, no_info)) [
        | none ↦ none
        | some r ↦ some (if r.0 then or_guess r.1 else finish mem ebda_adr o r.1)
      ]

-- `get_info`, with the address of the Multiboot structure.
unfoldable pub get_info : Bytes → ℕ → Option Info
get_info mem mb_adr = elim (read_options mem mb_adr) [
  | none ↦ none
  | some o ↦ elim (read_firmware mem o) [
    | none ↦ none
    | some hw ↦ some (record {
      options = o;
      ebda_adr = word16 mem 0x40e * 2 ^ 4;
      ebda_size = mem (word16 mem 0x40e * 2 ^ 4);
      hw = hw;
    })
  ]
]
