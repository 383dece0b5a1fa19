-- ===== src/Menu/Choice.antt =====
-- menu.c: which entry `menu` returns.
use smp_boot.Base.{
  ℕ, suc, ◌+◌, ◌-◌, ◌^◌, ◌<◌, min, ◌≡◌, ◌≢◌, refl, ◌∙◌, ap, ◌⊎◌, inl, inr, arith, true, false, ◌==◌,
  if◌then◌else◌, Bool-cases, ==_iff, some, List, [], ◌∷◌, ◌++◌, length, get_elem?,
}
use smp_boot.Keyboard.{key_up, key_down}
use smp_boot.Menu.{draw, move, enter, menu_loop, menu}

-- The selection after a key, kept between the first and the last of `n` entries.
abbrev pub clamp : ℕ → ℕ → ℕ → ℕ
clamp n s key = if key == key_down then min (s + 1) (n - 1) else if key == key_up then s - 1 else s

abbrev pub clamp_all : ℕ → List ℕ → ℕ → ℕ
clamp_all n [] s = s
clamp_all n (key ∷ keys) s = clamp_all n keys (clamp n s key)

abbrev pub NoEnter : List ℕ → Type 0
NoEnter [] = Unit
NoEnter (key ∷ keys) = (key ≢ enter) × NoEnter keys

-- No entry has the value.
abbrev pub NoEntry : ℕ → List ℕ → Type 0
NoEntry def [] = Unit
NoEntry def (v ∷ vs) = (v ≢ def) × NoEntry def vs

-- The entry that is selected at first: one with the default value, or the first entry.
abbrev pub IsDefault : ℕ → List ℕ → ℕ → Type 0
IsDefault def entries s = (get_elem? entries s ≡ some def) ⊎ (NoEntry def entries × (s ≡ 0))

move-clamp :
    (key n s : ℕ) → s < n → n < 2 ^ 32 → (move key n s ≡ clamp n s key) × (clamp n s key < n)
unfolding move
move-clamp key n s inside fits = ground arith

-- A drawing behind the first leaves the selection.
draw-later : (def u s : ℕ) (entries : List ℕ) → (draw false def u entries s).1 ≡ s
unfolding draw
draw-later def u s [] = refl
draw-later def u s (v ∷ vs) = draw-later def (u + 1) s vs

-- The first drawing, from entry `u` on.
draw-first :
    (def u s : ℕ) (entries : List ℕ)
    → let t = (draw true def u entries s).1 in
      ((i : ℕ) × (t ≡ u + i) × (i < length entries) × (get_elem? entries i ≡ some def))
      ⊎ (NoEntry def entries × (t ≡ s))
unfolding draw
draw-first def u s [] = inr (tt, refl)
draw-first def u s (v ∷ vs) = elim (Bool-cases (v == def)) [
  | inl same ↦ rw same (elim (draw-first def (u + 1) u vs) [
    | inl (i, at, inside, found) ↦ inl (suc i, (at ∙ omega arith), omega arith, found)
    | inr (no_entry, stays) ↦
        inl (0, (stays ∙ omega arith), omega arith, ap some ((==_iff v def).0 same))
  ])
  | inr other ↦ rw other (elim (draw-first def (u + 1) s vs) [
    | inl (i, at, inside, found) ↦ inl (suc i, (at ∙ omega arith), omega arith, found)
    | inr (no_entry, stays) ↦ inr ((ground arith, no_entry), stays)
  ])
]

-- The loop behind the first drawing.
menu_loop-later :
    (entries moves keys : List ℕ) (def s : ℕ)
    → s < length entries
    → length entries < 2 ^ 32
    → NoEnter moves
    → (menu_loop entries def false s (moves ++ enter ∷ keys)
        ≡ some (get_elem? entries (clamp_all (length entries) moves s)))
      × (clamp_all (length entries) moves s < length entries)
unfolding menu_loop
menu_loop-later entries [] keys def s inside fits h = (rw (draw-later def 0 s entries) refl, inside)
menu_loop-later entries (key ∷ moves) keys def s inside fits (move_key, h) =
    let other : (key == enter) ≡ false = ground arith in
    let (same, stays) = move-clamp key (length entries) s inside fits in
    let (ends, within) =
      menu_loop-later entries moves keys def (clamp (length entries) s key) stays fits h in
    (rw (draw-later def 0 s entries, other, same) ends, within)

-- The first drawing of a menu that is not empty selects one of its entries.
draw-IsDefault :
    (def : ℕ) (entries : List ℕ)
    → 0 < length entries
    → let s = (draw true def 0 entries 0).1 in IsDefault def entries s × (s < length entries)
draw-IsDefault def entries some_entry = elim (draw-first def 0 0 entries) [
  | inl (i, at, inside, found) ↦
      let here : (draw true def 0 entries 0).1 ≡ i = at ∙ omega arith in rw here (inl found, inside)
  | inr (no_entry, stays) ↦ rw stays (inr (no_entry, refl), some_entry)
]

-- The whole loop, where the first drawing selects `s`.
menu_loop-first :
    (entries moves keys : List ℕ) (def s : ℕ)
    → (draw true def 0 entries 0).1 ≡ s
    → s < length entries
    → length entries < 2 ^ 32
    → NoEnter moves
    → (menu_loop entries def true 0 (moves ++ enter ∷ keys)
        ≡ some (get_elem? entries (clamp_all (length entries) moves s)))
      × (clamp_all (length entries) moves s < length entries)
unfolding menu_loop
menu_loop-first entries [] keys def s start inside fits h = (rw start refl, inside)
menu_loop-first entries (key ∷ moves) keys def s start inside fits (move_key, h) =
    let other : (key == enter) ≡ false = ground arith in
    let (same, stays) = move-clamp key (length entries) s inside fits in
    let (ends, within) =
      menu_loop-later entries moves keys def (clamp (length entries) s key) stays fits h in
    (rw (start, other, same) ends, within)

-- In a menu with entries, fewer than 2^32, the enter key ends the choice whatever other keys have
-- been pressed before. The result is the value of one of the entries: the one that the moves
-- select, kept between the first and the last entry, from an entry with the default value on, or
-- from the first one where no entry has it.
pub menu-clamp_all :
    (entries moves keys : List ℕ) (def : ℕ)
    → 0 < length entries
    → length entries < 2 ^ 32
    → NoEnter moves
    → (s : ℕ) × IsDefault def entries s
      × (menu entries def (moves ++ enter ∷ keys)
          ≡ some (get_elem? entries (clamp_all (length entries) moves s)))
      × (clamp_all (length entries) moves s < length entries)
unfolding menu
menu-clamp_all entries moves keys def some_entry fits h =
    let s = (draw true def 0 entries 0).1 in
    let (default, inside) = draw-IsDefault def entries some_entry in
    let (ends, within) = menu_loop-first entries moves keys def s refl inside fits h in
    (s, default, ends, within)
