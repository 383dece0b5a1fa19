-- ===== src/Keyboard/Decode.antt =====
-- keyboard.c: the decoder on streams of whole codes.
use smp_boot.Base.{
  ℕ, ◌+◌, ◌*◌, ◌^◌, ◌<◌, ◌≡◌, ◌≢◌, refl, some, List, [], ◌∷◌, ◌++◌, bit_or, arith, ap,
}
use smp_boot.Base.{bit_or_disjoint}
use smp_boot.Keyboard.{Decoder, keyboard_get_scancode}

-- The codes of a keyboard: one byte, an e0 prefix and a byte, an e1 prefix and two bytes.
pub data Code : Type 0 where
  plain : ℕ → Code
  extended : ℕ → Code
  pause : ℕ → ℕ → Code

abbrev pub IsCode : Code → Type 0
IsCode (plain b) = (b < 256) × (b ≢ 0xe0) × (b ≢ 0xe1)
IsCode (extended b) = b < 256
IsCode (pause b c) = (b < 256) × (c < 256)

-- The bytes that the controller delivers for a code.
abbrev pub bytes : Code → List ℕ
bytes (plain b) = b ∷ []
bytes (extended b) = 0xe0 ∷ b ∷ []
bytes (pause b c) = 0xe1 ∷ b ∷ c ∷ []

-- What the calls of `keyboard_get_scancode` return for a code. The first byte behind e1 is
-- returned by itself, as if it were a whole code.
abbrev pub returned : Code → List ℕ
returned (plain b) = b ∷ []
returned (extended b) = 0 ∷ (0xe000 + b) ∷ []
returned (pause b c) = 0 ∷ b ∷ (0xe10000 + b * 256 + c) ∷ []

abbrev pub stream : {A : Type 0} → (Code → List A) → List Code → List A
stream f [] = []
stream f (c ∷ cs) = f c ++ stream f cs

abbrev pub AllCodes : List Code → Type 0
AllCodes [] = Unit
AllCodes (c ∷ cs) = IsCode c × AllCodes cs

-- One call for each byte of a list.
unfoldable pub poll_all : List ℕ → Decoder → List ℕ × Decoder
poll_all [] d = ([], d)
poll_all (b ∷ bs) d =
    let (code, d') = keyboard_get_scancode (some b) d in
    let (codes, last) = poll_all bs d' in (code ∷ codes, last)

-- The decoder between two codes: no prefix is pending.
abbrev pub IsIdle : Decoder → Type 0
IsIdle d = (d.e0_code ≡ 0) × (d.e1_code ≡ 0)

-- The two `|` of the decoder are sums.
or_e0 : (b : ℕ) → b < 256 → bit_or 0xe000 b ≡ 0xe000 + b
or_e0 b h = bit_or_disjoint 8 0xe0 b h

or_e1 :
    (b c : ℕ) → b < 256 → c < 256 → bit_or (bit_or 0xe10000 (b * 2 ^ 8)) c ≡ 0xe10000 + b * 256 + c
or_e1 b c hb hc =
    let high : bit_or 0xe10000 (b * 2 ^ 8) ≡ (0xe100 + b) * 2 ^ 8 =
      omega (arith, bit_or_disjoint 16 0xe1 (b * 2 ^ 8) (omega arith)) in
    omega (arith, ap (λ t. bit_or t c) high, bit_or_disjoint 8 (0xe100 + b) c hc)

-- From an idle decoder the calls for the bytes of one code return what `returned` says, and leave
-- the decoder idle.
poll_code :
    (c : Code) (bs : List ℕ) (d : Decoder)
    → IsIdle d
    → IsCode c
    → (d' : Decoder) × IsIdle d'
      × (poll_all (bytes c ++ bs) d ≡ (returned c ++ (poll_all bs d').0, (poll_all bs d').1))
unfolding poll_all keyboard_get_scancode
poll_code (plain b) bs d idle ok = (d, idle, ground arith)
poll_code (extended b) bs d idle ok =
    (record d { e0_code = 0 }, ground arith, ground (arith, or_e0 b))
poll_code (pause b c) bs d idle ok =
    (record d { e1_code = 0; e1_prev = b }, ground arith, ground (arith, or_e1 b c))

-- From an idle decoder, the calls for the bytes of a stream of whole codes return, in order, for
-- each byte of a plain code the byte, for a code with the prefix 0xe0 first 0 and then 0xe000 plus
-- the byte, and for a code with the prefix 0xe1 first 0, then the byte behind the prefix as a code
-- of its own, and then 0xe10000 plus the two bytes. No prefix is carried from one code into the
-- next, and the decoder ends idle.
pub poll_all-stream :
    (cs : List Code) (d : Decoder)
    → IsIdle d
    → AllCodes cs
    → ((poll_all (stream bytes cs) d).0 ≡ stream returned cs)
      × IsIdle (poll_all (stream bytes cs) d).1
poll_all-stream [] d idle ok = unfold poll_all in (refl, idle)
poll_all-stream (c ∷ cs) d idle ok =
    let (d', idle', one) = poll_code c (stream bytes cs) d idle ok.0 in
    let rest = poll_all-stream cs d' idle' ok.1 in rw (one, rest.0) (refl, rest.1)
