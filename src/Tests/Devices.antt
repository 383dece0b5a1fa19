-- ===== src/Tests/Devices.antt =====
-- Runs of the keyboard decoder and of the screen.
use smp_boot.Base.{
  ℕ, ◌-◌, ◌^◌, ◌<◌, ◌≡◌, refl, true, false, none, List, [], ◌∷◌, arith, if◌then◌else◌, ◌==◌,
  testbit,
}
use smp_boot.Keyboard.{fresh, kbm_shift, kbm_ctrl}
use smp_boot.Keyboard.Decode.{
  Code, plain, extended, pause, bytes, stream, poll_all, IsIdle, poll_all-stream,
}
use smp_boot.Keyboard.Shift.{modifiers_after, modifiers_after-held}
use smp_boot.Clib.Numbers.{atoi}
use smp_boot.Screen.Itoa.{itoa}
use smp_boot.Screen.Itoa.RoundTrip.{atoi-itoa}
use smp_boot.Screen.Text.{Screen, put_char, putch, screen_w, scroll}
use smp_boot.Screen.Text.Cursor.{OnScreen, putch-OnScreen}

abbrev typed : List Code
typed = plain 0x1e ∷ extended 0x48 ∷ pause 0x1d 0x45 ∷ plain 0x9e ∷ []

poll_all-stream_example :
    ((poll_all (stream bytes typed) fresh).0 ≡ 0x1e ∷ 0 ∷ 0xe048 ∷ 0 ∷ 0x1d ∷ 0xe11d45 ∷ 0x9e ∷ [])
    × IsIdle (poll_all (stream bytes typed) fresh).1
poll_all-stream_example = poll_all-stream typed fresh (refl, refl) (omega arith)

modifiers_after-held_example :
    let codes : List ℕ = 0x2a ∷ 0x1e ∷ 0xaa ∷ 0x1d ∷ [] in
    (testbit (modifiers_after codes 0) kbm_shift ≡ false)
    × (testbit (modifiers_after codes 0) kbm_ctrl ≡ true)
modifiers_after-held_example = modifiers_after-held (0x2a ∷ 0x1e ∷ 0xaa ∷ 0x1d ∷ []) 0

atoi-itoa_example :
    (atoi (itoa b'd' 1017) ≡ 1017)
    × (atoi (itoa b'd' (2 ^ 64 - 2 ^ 31)) ≡ 2 ^ 32 - 2 ^ 31)
    × (atoi (b'0' ∷ b'x' ∷ itoa b'x' 0xfee00000) ≡ 0xfee00000)
atoi-itoa_example =
    atoi-itoa 1017 (2 ^ 31) 0xfee00000 (omega arith) (omega arith) (omega arith) (omega arith)

-- The cursor in the last column of the last row.
abbrev corner : Screen
corner = record {
  text = λ a. a;
  attrib = 0x0f;
  attrib_status = 0x1f;
  csr_x = 79;
  csr_y = 24;
  buf_scrollback = none;
  buf_x = 79;
  buf_y = 30;
}

-- What `putch` leaves of it after an 'A'.
abbrev scrolled : Screen
scrolled = scroll (record corner {
  text = λ a. if a == 1999 then 0x0f41 else a;
  csr_x = 0;
  csr_y = 25;
  buf_x = 0;
  buf_y = 31;
})

putch-OnScreen_example : OnScreen scrolled × ((a : ℕ) → a < screen_w → scrolled.text a ≡ a)
unfolding putch put_char
putch-OnScreen_example = putch-OnScreen 0x41 corner scrolled (omega arith) refl
