-- ===== src/Boot/Cpu.antt =====
-- boot32.c: `cpu_features`, which fills the fields of `hw_info` that `cpuid` tells. The messages
-- and the progress letters on the screen are left out.
pub mod Detect
pub mod Caches
use smp_boot.Base.{
  ℕ, zero, suc, ◌+◌, ◌-◌, ◌*◌, ◌/◌, ◌%◌, ◌^◌, ◌==◌, leb, ltb, if◌then◌else◌, List, [], ◌∷◌, ◌++◌,
  bit_and,
}
use smp_boot.Clib.Masks.{bits_from_cnt, bits_from_to, is_mask_set, is_mask_clear}
use smp_boot.Clib.Strings.{strcmp}

-- The registers after `cpuid`.
pub record Regs : Type 0 where
  pub eax : ℕ
  pub ebx : ℕ
  pub ecx : ℕ
  pub edx : ℕ

-- The instruction, by the values of EAX and ECX before it. Functions without a sub-leaf ignore ECX.
abbrev pub Cpuid : Type 0
Cpuid = ℕ → ℕ → Regs

pub data Vendor : Type 0 where
  vend_unknown vend_intel vend_amd : Vendor

pub record Cache : Type 0 where
  pub level : ℕ
  pub type : ℕ
  pub shared_by : ℕ
  pub line_size : ℕ
  pub size : ℕ

-- The fields of `hw_info` under CPUID. The array of caches is a function of the index; the C array
-- has `max_cache` elements.
pub record CpuInfo : Type 0 where
  pub cpuid_max : ℕ
  pub cpuid_high_max : ℕ
  pub cpuid_family : ℕ
  pub cpuid_cachelinesize : ℕ
  pub cpuid_lapic_id : ℕ
  pub maxphyaddr : ℕ
  pub cpu_vendor : Vendor
  pub cpuid_processor_name : ℕ → ℕ
  pub cpuid_threads_per_package : ℕ
  pub cpuid_cache : ℕ → Cache

abbrev pub max_cache : ℕ
max_cache = 4

-- The bytes of a `uint32_t` in memory.
abbrev pub bytes_of : ℕ → List ℕ → List ℕ
bytes_of v rest =
    (v % 2 ^ 8) ∷ (v / 2 ^ 8 % 2 ^ 8) ∷ (v / 2 ^ 16 % 2 ^ 8) ∷ (v / 2 ^ 24 % 2 ^ 8) ∷ rest

-- The string up to the first 0.
unfoldable pub c_string : List ℕ → List ℕ
c_string [] = []
c_string (c ∷ cs) = let rest = c_string cs in if c == 0 then [] else c ∷ rest

abbrev pub genuine_intel : List ℕ
genuine_intel =
    b'G' ∷ b'e' ∷ b'n' ∷ b'u' ∷ b'i' ∷ b'n' ∷ b'e' ∷ b'I' ∷ b'n' ∷ b't' ∷ b'e' ∷ b'l' ∷ []

abbrev pub authentic_amd : List ℕ
authentic_amd =
    b'A' ∷ b'u' ∷ b't' ∷ b'h' ∷ b'e' ∷ b'n' ∷ b't' ∷ b'i' ∷ b'c' ∷ b'A' ∷ b'M' ∷ b'D' ∷ []

-- `vendor.str`
unfoldable pub vendor_str : Regs → List ℕ
unfolding c_string
vendor_str r = c_string (bytes_of r.ebx (bytes_of r.edx (bytes_of r.ecx [])))

unfoldable pub detect_vendor : Regs → Vendor
detect_vendor r =
    if strcmp (vendor_str r) genuine_intel == 0
    then vend_intel
    else if strcmp (vendor_str r) authentic_amd == 0
    then vend_amd
    else vend_unknown

abbrev pub by_vendor {ℓ} : {A : Type ℓ} → Vendor → A → A → A → A
by_vendor vend_intel a b c = a
by_vendor vend_amd a b c = b
by_vendor vend_unknown a b c = c

-- `if (hw_info.cpuid_max >= 1)`, for Intel and for AMD
unfoldable pub read_family_intel : Regs → CpuInfo → CpuInfo
read_family_intel r h = record h {
  cpuid_family = bits_from_cnt r.eax 8 4 + bits_from_cnt r.eax 20 8;
  cpuid_cachelinesize =
      if is_mask_set r.edx (2 ^ 19) then bits_from_cnt r.ebx 8 8 * 8 else h.cpuid_cachelinesize;
  cpuid_lapic_id = bits_from_cnt r.ebx 24 8;
}

unfoldable pub read_family_amd : Regs → CpuInfo → CpuInfo
read_family_amd r h =
    let family = bits_from_cnt r.eax 8 4 in
    record h {
      cpuid_family = if family == 0x0F then family + bits_from_cnt r.eax 20 8 else family;
      cpuid_cachelinesize = bits_from_cnt r.ebx 8 8 * 8;
    }

unfoldable pub read_family : Cpuid → CpuInfo → CpuInfo
unfolding read_family_intel read_family_amd
read_family cpuid h =
    let r = cpuid 1 0 in
    if leb 1 h.cpuid_max
    then by_vendor h.cpu_vendor (read_family_intel r h) (read_family_amd r h) h
    else h

-- `cpuid_processor_name.u32`, from three functions
abbrev pub name_words : Regs → Regs → Regs → ℕ → ℕ
name_words a b c i =
    let r = if ltb i 4 then a else if ltb i 8 then b else c in
    let j = i % 4 in
    if j == 0 then r.eax else if j == 1 then r.ebx else if j == 2 then r.ecx else r.edx

unfoldable pub read_name : Cpuid → CpuInfo → CpuInfo
read_name cpuid h =
    let high = (cpuid 0x80000000 0).eax in
    record h {
      cpuid_high_max = high;
      cpuid_processor_name =
          if leb 0x80000004 high
          then name_words (cpuid 0x80000002 0) (cpuid 0x80000003 0) (cpuid 0x80000004 0)
          else h.cpuid_processor_name;
      maxphyaddr = if leb 0x80000008 high then bit_and (cpuid 0x80000004 0).eax 0xFF else 36;
    }

-- The number of threads per package, for Intel and for AMD.
unfoldable pub threads_intel : Cpuid → CpuInfo → ℕ
threads_intel cpuid h =
    if is_mask_clear (cpuid 1 0).edx (2 ^ 28)
    then 1
    else if leb 4 h.cpuid_max
    then bits_from_cnt (cpuid 4 0).eax 26 6 + 1
    else 1

unfoldable pub threads_amd : Cpuid → CpuInfo → ℕ
threads_amd cpuid h =
    if is_mask_clear (cpuid 1 0).edx (2 ^ 28)
    then 1
    else if leb 0x80000008 h.cpuid_high_max
    then if is_mask_set (cpuid 0x80000001 0).ecx (2 ^ 1)
      then bits_from_cnt (cpuid 0x80000008 0).ecx 0 8 + 1
      else 1
    else 1

unfoldable pub read_threads : Cpuid → CpuInfo → CpuInfo
unfolding threads_intel threads_amd
read_threads cpuid h = record h {
  cpuid_threads_per_package =
      by_vendor h.cpu_vendor (threads_intel cpuid h) (threads_amd cpuid h)
        h.cpuid_threads_per_package;
}

-- One round of the loop over the sub-leaves of function 4: `cpuid_cache[u]` after it. Of a
-- `uint8_t` the low byte is kept, and the size is computed from it.
unfoldable pub read_cache : Regs → Cache → Cache
read_cache r old =
    let kind = bits_from_cnt r.eax 0 5 in
    let way = bits_from_cnt r.ebx 22 10 + 1 in
    let partition = bits_from_cnt r.ebx 12 10 + 1 in
    let line = (bits_from_cnt r.ebx 0 12 + 1) % 2 ^ 8 in
    let set = (r.ecx + 1) % 2 ^ 32 in
    record {
      level = bits_from_cnt r.eax 5 3;
      type =
          if kind == 1
          then b'D'
          else if kind == 2
          then b'I'
          else if kind == 3
          then b'U'
          else old.type;
      shared_by = (bits_from_cnt r.eax 26 6 + 1) % 2 ^ 8;
      line_size = line;
      size = way * partition * line * set % 2 ^ 32;
    }

abbrev pub put_cache : (ℕ → Cache) → ℕ → Cache → ℕ → Cache
put_cache caches u c i = if i == u then c else caches i

-- The loop over the sub-leaves from `u` on, by a bound on the rounds left.
unfoldable pub read_caches : ℕ → Cpuid → ℕ → (ℕ → Cache) → ℕ → Cache
unfolding read_cache
read_caches zero cpuid u caches = caches
read_caches (suc rounds) cpuid u caches =
    let r = cpuid 4 u in
    let caches' = put_cache caches u (read_cache r (caches u)) in
    let rest = read_caches rounds cpuid (u + 1) caches' in
    if bits_from_cnt r.eax 0 5 == 0 then caches else if leb max_cache u then caches' else rest

-- The caches of AMD: functions 0x80000005 and 0x80000006.
unfoldable pub l1_amd : ℕ → ℕ → Cache → Cache
l1_amd kind v old = record old {
  type = kind;
  level = 1;
  size = bits_from_to v 24 31 * 1024;
  line_size = bits_from_cnt v 0 8;
}

unfoldable pub l23_amd : ℕ → ℕ → ℕ → Cache → Cache
l23_amd level size v old =
    if ltb 0 size
    then record old { size = size; type = b'U'; level = level; line_size = bits_from_to v 0 7 }
    else record old { size = size }

unfoldable pub read_caches_amd : Cpuid → (ℕ → Cache) → ℕ → Cache
unfolding l1_amd l23_amd
read_caches_amd cpuid caches =
    let r = cpuid 0x80000005 0 in
    let s = cpuid 0x80000006 0 in
    let one = put_cache caches 0 (l1_amd b'I' r.edx (caches 0)) in
    let two = put_cache one 1 (l1_amd b'D' r.ecx (one 1)) in
    let three = put_cache two 2 (l23_amd 2 (bits_from_to s.ecx 16 31 * 1024) s.ecx (two 2)) in
    put_cache three 3 (l23_amd 3 (bits_from_to s.edx 18 31 * 512 * 1024 % 2 ^ 32) s.edx (three 3))

-- The loop of `cpu_features` has at most one round more than there are elements.
unfoldable pub read_all_caches : Cpuid → CpuInfo → CpuInfo
unfolding read_caches read_caches_amd
read_all_caches cpuid h = record h {
  cpuid_cache =
      by_vendor h.cpu_vendor
        (if leb 4 h.cpuid_max
          then read_caches (suc max_cache) cpuid 0 h.cpuid_cache
          else h.cpuid_cache)
        (if leb 0x80000006 h.cpuid_high_max
          then read_caches_amd cpuid h.cpuid_cache
          else h.cpuid_cache)
        h.cpuid_cache;
}

unfoldable pub cpu_features : Cpuid → CpuInfo → CpuInfo
unfolding read_family read_name read_threads read_all_caches
cpu_features cpuid h =
    let r = cpuid 0 0 in
    let known = record h { cpuid_max = r.eax; cpu_vendor = detect_vendor r } in
    read_all_caches cpuid (read_threads cpuid (read_name cpuid (read_family cpuid known)))
