-- ===== src/Boot/Cpu/Detect.antt =====
-- boot32.c: the vendor, as the words that `cpuid` answers.
use smp_boot.Base.{
  ℕ, zero, suc, ◌+◌, ◌^◌, ◌<◌, ◌≤◌, ◌≡◌, refl, sym, ◌∙◌, ap, ◌↔◌, inl, inr, arith, ◌==◌, ltb, ◌&&◌,
  Bool, true, false, Bool-cases, ==_iff, List, [], ◌∷◌, take, length,
}
use smp_boot.Clib.Strings.{strcmp, AllChars, strncmp_lem, strcmp-strncmp, head_eq, tail_eq}
use smp_boot.Boot.Cpu.{
  Regs, vend_intel, vend_amd, bytes_of, c_string, vendor_str, genuine_intel, authentic_amd,
  detect_vendor,
}

take_all : (n : ℕ) (l : List ℕ) → length l ≤ n → take n l ≡ l
take_all zero [] h = refl
take_all zero (x ∷ l) h = absurd (omega arith)
take_all (suc n) [] h = refl
take_all (suc n) (x ∷ l) h = ap (λ t. x ∷ t) (take_all n l (omega arith))

pub strcmp-eq : (a b : List ℕ) → AllChars a → AllChars b → (strcmp a b ≡ 0) ↔ (a ≡ b)
strcmp-eq a b ha hb =
    let n = suc (length a + length b) in
    let same = strcmp-strncmp a b n (omega arith) in
    let all_a = take_all n a (omega arith) in
    let all_b = take_all n b (omega arith) in
    let (to, from) = strncmp_lem a b n ha hb in
    (λ e. sym all_a ∙ to (sym same ∙ e) ∙ all_b, λ e. same ∙ from (ap (take n) e))

-- The elements of a list are bytes.
abbrev pub AllBytes : List ℕ → Type 0
AllBytes [] = Unit
AllBytes (c ∷ cs) = (c < 256) × AllBytes cs

c_string-AllChars : (l : List ℕ) → AllBytes l → AllChars (c_string l)
unfolding c_string
c_string-AllChars [] h = tt
c_string-AllChars (c ∷ cs) (hc, hcs) = elim (Bool-cases (c == 0)) [
  | inl z ↦ rw z tt
  | inr z ↦ rw z (ground arith, hc, c_string-AllChars cs hcs)
]

-- A string without a 0 is all of the bytes that are as many.
c_string-full : (l t : List ℕ) → length l ≡ length t → c_string l ≡ t → l ≡ t
unfolding c_string
c_string-full [] [] len e = refl
c_string-full [] (y ∷ t) len e = absurd (omega arith)
c_string-full (x ∷ l) [] len e = absurd (omega arith)
c_string-full (x ∷ l) (y ∷ t) len e = elim (Bool-cases (x == 0)) [
  | inl z ↦ absurd (ground arith)
  | inr z ↦
      let e' : (x ∷ c_string l) ≡ (y ∷ t) = ground arith in
      let rest = c_string-full l t (omega arith) (tail_eq e') in let first = head_eq e' in cc
]

-- The three words of `vendor`, in the order of the string.
abbrev pub Words : Regs → ℕ → ℕ → ℕ → Type 0
Words r a b c = (r.ebx ≡ a) × (r.edx ≡ b) × (r.ecx ≡ c)

abbrev pub IsWord : Regs → Type 0
IsWord r = (r.ebx < 2 ^ 32) × (r.edx < 2 ^ 32) × (r.ecx < 2 ^ 32)

-- Four bytes tell a word.
bytes_of-word :
    (v w : ℕ) (l m : List ℕ)
    → v < 2 ^ 32
    → w < 2 ^ 32
    → bytes_of v l ≡ bytes_of w m
    → (v ≡ w) × (l ≡ m)
bytes_of-word v w l m hv hw e =
    let e1 = tail_eq e in
    let e2 = tail_eq e1 in
    let e3 = tail_eq e2 in
    let b0 = head_eq e in
    let b1 = head_eq e1 in let b2 = head_eq e2 in let b3 = head_eq e3 in (omega arith, tail_eq e3)

abbrev pub vendor_bytes : ℕ → ℕ → ℕ → List ℕ
vendor_bytes a b c = bytes_of a (bytes_of b (bytes_of c []))

bytes_of-AllBytes : (v : ℕ) (l : List ℕ) → AllBytes l → AllBytes (bytes_of v l)
bytes_of-AllBytes v l h = (omega arith, (omega arith, (omega arith, (omega arith, h))))

c_string-id : (l : List ℕ) → AllChars l → c_string l ≡ l
unfolding c_string
c_string-id [] h = refl
c_string-id (c ∷ cs) (hc, lt, hcs) =
    let nonzero : (c == 0) ≡ false = ground arith in rw (nonzero, c_string-id cs hcs) refl

vendor_str-AllChars : (r : Regs) → AllChars (vendor_str r)
unfolding vendor_str
vendor_str-AllChars r = c_string-AllChars (vendor_bytes r.ebx r.edx r.ecx) (
    bytes_of-AllBytes r.ebx (bytes_of r.edx (bytes_of r.ecx []))
      (bytes_of-AllBytes r.edx (bytes_of r.ecx []) (bytes_of-AllBytes r.ecx [] tt)))

-- The string is that of three words exactly if those are the registers.
strcmp-Words :
    (r : Regs) (a b c : ℕ)
    → IsWord r
    → a < 2 ^ 32
    → b < 2 ^ 32
    → c < 2 ^ 32
    → AllChars (vendor_bytes a b c)
    → (strcmp (vendor_str r) (vendor_bytes a b c) ≡ 0) ↔ Words r a b c
unfolding vendor_str
strcmp-Words r a b c (hb, hd, hc) ha' hb' hc' chars = (
  λ e.
      let same =
        (strcmp-eq (vendor_str r) (vendor_bytes a b c) (vendor_str-AllChars r) chars).0 e in
      let full = c_string-full (vendor_bytes r.ebx r.edx r.ecx) (vendor_bytes a b c) refl same in
      let (first, l) =
        bytes_of-word r.ebx a (bytes_of r.edx (bytes_of r.ecx [])) (bytes_of b (bytes_of c [])) hb
          ha' full in
      let (second, l2) = bytes_of-word r.edx b (bytes_of r.ecx []) (bytes_of c []) hd hb' l in
      let (third, l3) = bytes_of-word r.ecx c [] [] hc hc' l2 in (first, second, third),
  λ (p, q, s).
      let same : vendor_bytes r.ebx r.edx r.ecx ≡ vendor_bytes a b c = rw (p, q, s) refl in
      (strcmp-eq (vendor_str r) (vendor_bytes a b c) (vendor_str-AllChars r) chars).1
        (ap c_string same ∙ c_string-id (vendor_bytes a b c) chars),
)

-- The words of "GenuineIntel" and "AuthenticAMD".
abbrev pub IntelWords : Regs → Type 0
IntelWords r = Words r 0x756e6547 0x49656e69 0x6c65746e

abbrev pub AmdWords : Regs → Type 0
AmdWords r = Words r 0x68747541 0x69746e65 0x444d4163

-- The test of a constant string.
abbrev pub all_chars : List ℕ → Bool
all_chars [] = true
all_chars (c ∷ cs) = ltb 0 c && ltb c 256 && all_chars cs

all_chars_lem : (l : List ℕ) → all_chars l ≡ true → AllChars l
all_chars_lem [] e = tt
all_chars_lem (c ∷ cs) e = (ground arith, ground arith, all_chars_lem cs (ground arith))

strcmp-intel : (r : Regs) → IsWord r → (strcmp (vendor_str r) genuine_intel ≡ 0) ↔ IntelWords r
strcmp-intel r fits =
    strcmp-Words r 0x756e6547 0x49656e69 0x6c65746e fits (omega arith) (omega arith) (omega arith)
      (all_chars_lem genuine_intel refl)

strcmp-amd : (r : Regs) → IsWord r → (strcmp (vendor_str r) authentic_amd ≡ 0) ↔ AmdWords r
strcmp-amd r fits =
    strcmp-Words r 0x68747541 0x69746e65 0x444d4163 fits (omega arith) (omega arith) (omega arith)
      (all_chars_lem authentic_amd refl)

-- The vendor is Intel exactly if the three words are those of "GenuineIntel", and AMD exactly if
-- they are those of "AuthenticAMD".
pub detect_vendor-words :
    (r : Regs)
    → IsWord r
    → ((detect_vendor r ≡ vend_intel) ↔ IntelWords r) × ((detect_vendor r ≡ vend_amd) ↔ AmdWords r)
unfolding detect_vendor
detect_vendor-words r fits =
    let (intel, intel') = strcmp-intel r fits in
    let (amd, amd') = strcmp-amd r fits in
    (
      (λ e. intel (ground arith), λ w. let here = intel' w in ground arith),
      (
        λ e. amd (ground arith),
        λ w.
            let here = amd' w in
            elim (Bool-cases (strcmp (vendor_str r) genuine_intel == 0)) [
              | inl both ↦
                  let (first, second, third) =
                    intel ((==_iff (strcmp (vendor_str r) genuine_intel) 0).0 both) in
                  absurd (omega arith)
              | inr other ↦ ground arith
            ],
      ),
    )
