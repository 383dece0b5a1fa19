-- ===== src/Tests/Printf.antt =====
-- Runs of `vprintf`.
use smp_boot.Base.{
  ◌-◌, ◌^◌, ◌<◌, ◌≡◌, refl, ◌↔◌, ◌⊎◌, true, false, none, some, List, [], ◌∷◌, arith,
}
use smp_boot.Screen.Itoa.{itoa}
use smp_boot.Screen.Printf.{convert, convert_scaled, scale}
use smp_boot.Screen.Printf.Room.{convert-room}
use smp_boot.Screen.Printf.Pieces.{Piece, char, number, string}

-- "a%05d|%#x %3s" with 42, 255 and "hi"
abbrev pieces : List Piece
pieces =
    char b'a'
    ∷ number (record { hash = false; zero_flag = true; width = b'5' ∷ [] }) b'd' 42
        (b'4' ∷ b'2' ∷ [])
    ∷ char b'|'
    ∷ number (record { hash = true; zero_flag = false; width = [] }) b'x' 255
        (b'0' ∷ b'x' ∷ b'f' ∷ b'f' ∷ [])
    ∷ char b' '
    ∷ string (record { hash = false; zero_flag = false; width = b'3' ∷ [] }) (b'h' ∷ b'i' ∷ [])
    ∷ []

convert-room_example :
    ((convert b'u' false 255 ≡ some (itoa b'u' 255)) ↔ (255 < 10 ^ 19))
    × ((convert b'd' false 255 ≡ some (itoa b'd' 255))
        ↔ ((255 < 2 ^ 63) ⊎ (2 ^ 64 - 10 ^ 18 < 255)))
    × (convert b'x' false 255 ≡ some (itoa b'x' 255))
    × (convert b'x' true 255 ≡ some (b'0' ∷ b'x' ∷ itoa b'x' 255))
convert-room_example = convert-room 255 (omega arith)

-- 2^50 is divided five times, and there are only five prefixes.
convert-behind_prefixes : convert b'u' true (2 ^ 50) ≡ none
unfolding convert convert_scaled scale
convert-behind_prefixes = refl
