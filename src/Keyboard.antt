-- ===== src/Keyboard.antt =====
-- keyboard.c: the decoder of scan codes and the translation to key codes. A byte that the
-- controller delivers is an argument; waiting for it is not modelled.
pub mod Decode
pub mod Shift
use smp_boot.Base.{
  ℕ, zero, suc, ◌+◌, ◌-◌, ◌*◌, ◌/◌, ◌%◌, ◌^◌, Bool, true, false, Option, none, some, List, [], ◌∷◌,
  ◌==◌, if◌then◌else◌, bit_or,
}
use smp_boot.Clib.Masks.{is_mask_clear, mask_set, mask_clear}

-- The static variables of `keyboard_get_scancode`.
pub record Decoder : Type 0 where
  pub e0_code : ℕ
  pub e1_code : ℕ
  pub e1_prev : ℕ

abbrev pub fresh : Decoder
fresh = record { e0_code = 0; e1_code = 0; e1_prev = 0 }

-- `keyboard_get_scancode`: `none` if the status register shows no byte in the buffer, otherwise the
-- byte that is read. Returns 0 while a sequence is not complete.
unfoldable pub keyboard_get_scancode : Option ℕ → Decoder → ℕ × Decoder
keyboard_get_scancode none d = (0, d)
keyboard_get_scancode (some scancode) d =
    if d.e0_code == 1
    then (bit_or 0xe000 scancode, record d { e0_code = 0 })
    else if d.e1_code == 1
    then (scancode, record d { e1_prev = scancode; e1_code = 2 })
    else if d.e1_code == 2
    then (bit_or (bit_or 0xe10000 (d.e1_prev * 2 ^ 8)) scancode, record d { e1_code = 0 })
    else if scancode == 0xe0
    then (0, record d { e0_code = 1 })
    else if scancode == 0xe1
    then (0, record d { e1_code = 1 })
    else (scancode, d)

abbrev pub kbm_shift : ℕ
kbm_shift = 0

abbrev pub kbm_ctrl : ℕ
kbm_ctrl = 1

abbrev pub key_esc : ℕ
key_esc = 200

abbrev pub key_up : ℕ
key_up = 201

abbrev pub key_down : ℕ
key_down = 202

abbrev pub key_pgup : ℕ
key_pgup = 205

abbrev pub key_pgdown : ℕ
key_pgdown = 206

abbrev pub key_home : ℕ
key_home = 207

abbrev pub key_end : ℕ
key_end = 208

-- A case of the `switch` that returns a key: the scan code, the key, and the key under SHIFT.
abbrev pub Key : Type 0
Key = ℕ × ℕ × ℕ

-- The cases that return a key, in the order of the source (the German layout).
unfoldable pub keys : List Key
keys =
    (0x01, key_esc, key_esc)
    ∷ (0x02, b'1', b'!')
    ∷ (0x03, b'2', b'"')
    ∷ (0x04, b'3', b'3')
    ∷ (0x05, b'4', b'$')
    ∷ (0x06, b'5', b'%')
    ∷ (0x07, b'6', b'&')
    ∷ (0x08, b'7', b'/')
    ∷ (0x09, b'8', b'(')
    ∷ (0x0a, b'9', b')')
    ∷ (0x0b, b'0', b'=')
    ∷ (0x0e, 8, 8)
    ∷ (0x10, b'q', b'Q')
    ∷ (0x11, b'w', b'W')
    ∷ (0x12, b'e', b'E')
    ∷ (0x13, b'r', b'R')
    ∷ (0x14, b't', b'T')
    ∷ (0x15, b'z', b'Z')
    ∷ (0x16, b'u', b'U')
    ∷ (0x17, b'i', b'I')
    ∷ (0x18, b'o', b'O')
    ∷ (0x19, b'p', b'P')
    ∷ (0x1c, 10, 10)
    ∷ (0x1e, b'a', b'A')
    ∷ (0x1f, b's', b'S')
    ∷ (0x20, b'd', b'D')
    ∷ (0x21, b'f', b'F')
    ∷ (0x22, b'g', b'G')
    ∷ (0x23, b'h', b'H')
    ∷ (0x24, b'j', b'J')
    ∷ (0x25, b'k', b'K')
    ∷ (0x26, b'l', b'L')
    ∷ (0x2c, b'y', b'Y')
    ∷ (0x2d, b'x', b'X')
    ∷ (0x2e, b'c', b'C')
    ∷ (0x2f, b'v', b'V')
    ∷ (0x30, b'b', b'B')
    ∷ (0x31, b'n', b'N')
    ∷ (0x32, b'm', b'M')
    ∷ (0x39, b' ', b' ')
    ∷ (0xe048, key_up, key_up)
    ∷ (0xe050, key_down, key_down)
    ∷ (0xe049, key_pgup, key_pgup)
    ∷ (0xe051, key_pgdown, key_pgdown)
    ∷ (0xe047, key_home, key_home)
    ∷ (0xe04f, key_end, key_end)
    ∷ []

unfoldable pub find_key : List Key → Bool → ℕ → ℕ
find_key [] plain scancode = 0
find_key ((code, key, shifted) ∷ rest) plain scancode =
    if scancode == code then if plain then key else shifted else find_key rest plain scancode

-- `scancode_to_keycode`, with `kb_modifier`: the key (0 for none) and the new modifiers.
unfoldable pub scancode_to_keycode : ℕ → ℕ → ℕ × ℕ
scancode_to_keycode scancode kb_modifier =
    if scancode == 0x2a
    then (0, mask_set kb_modifier (2 ^ kbm_shift))
    else if scancode == 0xaa
    then (0, mask_clear 32 kb_modifier (2 ^ kbm_shift))
    else if scancode == 0x36
    then (0, mask_set kb_modifier (2 ^ kbm_shift))
    else if scancode == 0xb6
    then (0, mask_clear 32 kb_modifier (2 ^ kbm_shift))
    else if scancode == 0x1d
    then (0, mask_set kb_modifier (2 ^ kbm_ctrl))
    else if scancode == 0x9d
    then (0, mask_clear 32 kb_modifier (2 ^ kbm_ctrl))
    else (find_key keys (is_mask_clear kb_modifier (2 ^ kbm_shift)) scancode, kb_modifier)
