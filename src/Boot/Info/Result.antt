-- ===== src/Boot/Info/Result.antt =====
-- boot32.c: what `get_info` puts together.
use smp_boot.Base.{ℕ, ◌*◌, ◌^◌, ◌≡◌, refl, Bool, true, ◌==◌, some, if◌then◌else◌}
use smp_boot.Boot.{Bytes, HwInfo, word16}
use smp_boot.Boot.Info.{
  Options, Info, no_info, or_guess, finish, read_acpi, read_firmware, read_options, get_info,
}

-- The address of the EBDA that the BIOS data area names.
abbrev pub ebda_of : Bytes → ℕ
ebda_of mem = word16 mem 0x40e * 2 ^ 4

pub read_firmware-acpi :
    (mem : Bytes) (o : Options) (r : Bool × HwInfo)
    → (o.cmd_noacpi == 0) ≡ true
    → read_acpi mem (ebda_of mem) (mem (ebda_of mem)) no_info ≡ some r
    → read_firmware mem o ≡ some (if r.0 then or_guess r.1 else finish mem (ebda_of mem) o r.1)
unfolding read_firmware
read_firmware-acpi mem o r on read = rw (on, read, read_firmware) refl

-- What `get_info` collects.
abbrev pub collected : Bytes → Options → HwInfo → Info
collected mem o hw = record {
  options = o;
  ebda_adr = ebda_of mem;
  ebda_size = mem (ebda_of mem);
  hw = hw;
}

pub get_info-collected :
    (mem : Bytes) (mb_adr : ℕ) (o : Options) (hw : HwInfo)
    → read_options mem mb_adr ≡ some o
    → read_firmware mem o ≡ some hw
    → get_info mem mb_adr ≡ some (collected mem o hw)
unfolding get_info
get_info-collected mem mb_adr o hw options read = rw (options, read, get_info) refl
