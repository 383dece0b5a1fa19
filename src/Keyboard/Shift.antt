-- ===== src/Keyboard/Shift.antt =====
-- keyboard.c: the modifiers over a sequence of scan codes, and the keys under SHIFT.
use smp_boot.Base.{
  ℕ, ◌+◌, ◌≡◌, refl, Bool, true, false, not, List, [], ◌∷◌, ◌==◌, if◌then◌else◌, ◌||◌, ◌&&◌, leb,
  arith, testbit, ap, ◌∙◌,
}
use smp_boot.Clib.Masks.{testbit-mask_set, testbit-mask_clear, is_mask_clear-pow}
use smp_boot.Keyboard.{Key, keys, find_key, scancode_to_keycode, kbm_shift, kbm_ctrl}

-- The translation of a sequence of scan codes: the modifiers after it.
unfoldable pub modifiers_after : List ℕ → ℕ → ℕ
modifiers_after [] m = m
modifiers_after (code ∷ codes) m = modifiers_after codes (scancode_to_keycode code m).1

-- Whether SHIFT is down after a sequence, from its make and break codes alone; the two SHIFT keys
-- are not told apart.
abbrev pub shift_down : List ℕ → Bool → Bool
shift_down [] down = down
shift_down (code ∷ codes) down =
    shift_down codes
      ((code == 0x2a || code == 0x36) || (down && not (code == 0xaa || code == 0xb6)))

abbrev pub ctrl_down : List ℕ → Bool → Bool
ctrl_down [] down = down
ctrl_down (code ∷ codes) down = ctrl_down codes (code == 0x1d || (down && not (code == 0x9d)))

shift_step :
    (code m : ℕ)
    → testbit (scancode_to_keycode code m).1 0
      ≡ ((code == 0x2a || code == 0x36) || (testbit m 0 && not (code == 0xaa || code == 0xb6)))
unfolding scancode_to_keycode
shift_step code m = ground (
  arith,
  testbit-mask_set 0 0 m,
  testbit-mask_set 0 1 m,
  testbit-mask_clear 0 32 0 m,
  testbit-mask_clear 0 32 1 m,
)

ctrl_step :
    (code m : ℕ)
    → testbit (scancode_to_keycode code m).1 1
      ≡ (code == 0x1d || (testbit m 1 && not (code == 0x9d)))
unfolding scancode_to_keycode
ctrl_step code m = ground (
  arith,
  testbit-mask_set 1 0 m,
  testbit-mask_set 1 1 m,
  testbit-mask_clear 1 32 0 m,
  testbit-mask_clear 1 32 1 m,
)

-- After any sequence of scan codes the SHIFT bit and the CTRL bit of `kb_modifier` are set exactly
-- if the last make or break code of SHIFT, and of CTRL, was a make code; without one they are as
-- before.
pub modifiers_after-held :
    (codes : List ℕ) (m : ℕ)
    → (testbit (modifiers_after codes m) kbm_shift ≡ shift_down codes (testbit m kbm_shift))
      × (testbit (modifiers_after codes m) kbm_ctrl ≡ ctrl_down codes (testbit m kbm_ctrl))
unfolding modifiers_after
modifiers_after-held [] m = (refl, refl)
modifiers_after-held (code ∷ codes) m =
    let rest = modifiers_after-held codes (scancode_to_keycode code m).1 in
    (
      rest.0 ∙ ap (shift_down codes) (shift_step code m),
      rest.1 ∙ ap (ctrl_down codes) (ctrl_step code m),
    )

abbrev is_lower : ℕ → Bool
is_lower c = leb b'a' c && leb c b'z'

abbrev upper_cases : List Key → Bool
upper_cases [] = true
upper_cases ((code, key, shifted) ∷ ks) =
    (if is_lower key then shifted + 32 == key else true) && upper_cases ks

find_key-upper :
    (ks : List Key) (code : ℕ)
    → upper_cases ks ≡ true
    → is_lower (find_key ks true code) ≡ true
    → find_key ks false code + 32 ≡ find_key ks true code
unfolding find_key
find_key-upper [] code all low = absurd (ground arith)
find_key-upper ((c, key, shifted) ∷ ks) code all low = ground (arith, find_key-upper ks code)

keys-upper : upper_cases keys ≡ true
unfolding keys
keys-upper = refl

-- Whatever scan code gives a small letter without SHIFT gives the capital letter with it.
pub scancode_to_keycode-upper :
    (code m m' : ℕ)
    → testbit m kbm_shift ≡ false
    → testbit m' kbm_shift ≡ true
    → is_lower (scancode_to_keycode code m).0 ≡ true
    → (scancode_to_keycode code m').0 + 32 ≡ (scancode_to_keycode code m).0
unfolding scancode_to_keycode
scancode_to_keycode-upper code m m' up down low =
    ground
      (arith, is_mask_clear-pow 0 m, is_mask_clear-pow 0 m', find_key-upper keys code keys-upper)
