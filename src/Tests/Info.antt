-- ===== src/Tests/Info.antt =====
-- Runs of `get_info`.
use smp_boot.Base.{ℕ, ◌-◌, ◌≡◌, refl, some, List, [], ◌∷◌, ◌++◌, get_or, ltb, if◌then◌else◌}
use smp_boot.Boot.{Bytes}
use smp_boot.Boot.Info.{
  Info, Options, default_options, read_options, read_cmdline, read_option, skip_word, string_at,
}
use smp_boot.Clib.Strings.{strncmp}
use smp_boot.Clib.Numbers.{atoi, atoi_unsigned, atoi_base, atoi_loop, is_digit_of, digit_value}
use smp_boot.Tests.Tables.{table_bytes}

-- A Multiboot structure at 16, with the command line "k maxcpu=4 noacpi x" at 36.
abbrev low_bytes : List ℕ
low_bytes =
    0 ∷ 0 ∷ 0 ∷ 0 ∷ 0 ∷ 0 ∷ 0 ∷ 0 ∷ 0 ∷ 0 ∷ 0 ∷ 0 ∷ 0 ∷ 0 ∷ 0 ∷ 0 ∷ 4 ∷ 0 ∷ 0 ∷ 0 ∷ 0 ∷ 0 ∷ 0 ∷ 0
    ∷ 0 ∷ 0 ∷ 0 ∷ 0 ∷ 0 ∷ 0 ∷ 0 ∷ 0 ∷ 36 ∷ 0 ∷ 0 ∷ 0 ∷ b'k' ∷ b' ' ∷ b'm' ∷ b'a' ∷ b'x' ∷ b'c'
    ∷ b'p' ∷ b'u' ∷ b'=' ∷ b'4' ∷ b' ' ∷ b'n' ∷ b'o' ∷ b'a' ∷ b'c' ∷ b'p' ∷ b'i' ∷ b' ' ∷ b'x' ∷ []

-- A root pointer, an RSDT at 0xE0014, and the tables FACP at 0xE0040 and MADT at 0xE0044.
abbrev rom_bytes : List ℕ
rom_bytes =
    (b'R' ∷ b'S' ∷ b'D' ∷ b' ' ∷ b'P' ∷ b'T' ∷ b'R' ∷ b' ' ∷ 191 ∷ 0 ∷ 0 ∷ 0 ∷ 0 ∷ 0 ∷ 0 ∷ 0 ∷ 0x14
      ∷ 0 ∷ 0x0e ∷ 0 ∷ [])
    ++ (b'R' ∷ b'S' ∷ b'D' ∷ b'T' ∷ 44 ∷ 0 ∷ 0 ∷ 0 ∷ 0 ∷ 247 ∷ 0 ∷ 0 ∷ 0 ∷ 0 ∷ 0 ∷ 0 ∷ 0 ∷ 0 ∷ 0 ∷ 0
        ∷ 0 ∷ 0 ∷ 0 ∷ 0 ∷ 0 ∷ 0 ∷ 0 ∷ 0 ∷ 0 ∷ 0 ∷ 0 ∷ 0 ∷ 0 ∷ 0 ∷ 0 ∷ 0 ∷ 0x40 ∷ 0 ∷ 0x0e ∷ 0 ∷ 0x44
        ∷ 0 ∷ 0x0e ∷ 0 ∷ [])
    ++ (b'F' ∷ b'A' ∷ b'C' ∷ b'P' ∷ [])
    ++ table_bytes

abbrev memory : Bytes
memory a = if ltb a 0xE0000 then get_or low_bytes a 0 else get_or rom_bytes (a - 0xE0000) 0

abbrev behind_maxcpu : List ℕ
behind_maxcpu = b'4' ∷ b' ' ∷ b'n' ∷ b'o' ∷ b'a' ∷ b'c' ∷ b'p' ∷ b'i' ∷ b' ' ∷ b'x' ∷ []

atoi-behind_maxcpu : atoi behind_maxcpu ≡ 4
unfolding atoi atoi_unsigned atoi_base atoi_loop is_digit_of digit_value
atoi-behind_maxcpu = refl

abbrev read_words : Options
read_words = record default_options { cmd_maxcpu = atoi behind_maxcpu; cmd_noacpi = 1 }

read_options-words : read_options memory 16 ≡ some read_words
unfolding read_options read_cmdline read_option skip_word string_at strncmp
read_options-words = refl
