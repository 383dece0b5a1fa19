-- ===== src/Menu.antt =====
-- menu.c: `menu` on the processor that draws. The entries are the list of their values; the keys
-- are what `wait_for_key` answers. The texts and the two barriers are left out.
pub mod Choice
use smp_boot.Base.{
  ℕ, zero, suc, ◌+◌, ◌-◌, ◌%◌, ◌^◌, Bool, true, false, ◌&&◌, ◌==◌, ltb, if◌then◌else◌, Option, none,
  some, List, [], ◌∷◌, length, get_elem?,
}
use smp_boot.Keyboard.{key_up, key_down}

-- The loop that draws, from entry `u` on: whether each entry is shown as the selected one, and
-- `selection` behind the loop. `first` is `cont == 2`.
unfoldable pub draw : Bool → ℕ → ℕ → List ℕ → ℕ → List Bool × ℕ
draw first def u [] selection = ([], selection)
draw first def u (value ∷ entries) selection =
    let selection' = if first && value == def then u else selection in
    let (marks, last) = draw first def (u + 1) entries selection' in
    ((selection' == u) ∷ marks, last)

-- The `switch` on a key, with `u` entries.
unfoldable pub move : ℕ → ℕ → ℕ → ℕ
move key u selection =
    if key == key_down
    then if ltb selection ((u + (2 ^ 32 - 1)) % 2 ^ 32) then (selection + 1) % 2 ^ 32 else selection
    else if key == key_up
    then if ltb 0 selection then selection - 1 else selection
    else selection

abbrev pub enter : ℕ
enter = 10

-- The outer loop. `none` means that it waits for a further key, `some none` that the entry behind
-- the list is read.
unfoldable pub menu_loop : List ℕ → ℕ → Bool → ℕ → List ℕ → Option (Option ℕ)
unfolding draw move
menu_loop entries def first selection [] = none
menu_loop entries def first selection (key ∷ keys) =
    let (marks, selection') = draw first def 0 entries selection in
    let rest = menu_loop entries def false (move key (length entries) selection') keys in
    if key == enter then some (get_elem? entries selection') else rest

unfoldable pub menu : List ℕ → ℕ → List ℕ → Option (Option ℕ)
unfolding menu_loop
menu entries def keys = menu_loop entries def true 0 keys
