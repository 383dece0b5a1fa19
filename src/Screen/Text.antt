-- ===== src/Screen/Text.antt =====
-- screen.c: the cursor, the text memory and the scrollback buffer, as the kernel proper is built
-- (without EARLY). The moves of the hardware cursor are not modelled.
pub mod Cursor
use smp_boot.Base.{
  ℕ, zero, suc, ◌+◌, ◌-◌, ◌*◌, ◌/◌, ◌%◌, ◌^◌, Bool, true, false, ◌&&◌, Option, none, some, List, [],
  ◌∷◌, ◌==◌, leb, ltb, if◌then◌else◌, bit_or,
}
use smp_boot.Clib.Blocks.{Cells, store, memcpy, memset}

abbrev pub screen_h : ℕ
screen_h = 25

abbrev pub screen_w : ℕ
screen_w = 80

abbrev pub scrollback_buf_size : ℕ
scrollback_buf_size = 1024 * 80

-- `text` is the video memory in 16-bit cells, `buf_scrollback` is `none` while the pointer is NULL.
pub record Screen : Type 0 where
  pub text : Cells
  pub attrib : ℕ
  pub attrib_status : ℕ
  pub csr_x : ℕ
  pub csr_y : ℕ
  pub buf_scrollback : Option Cells
  pub buf_x : ℕ
  pub buf_y : ℕ

-- A space in white on black: 0x20 | (ATTRIB(COLOR_FG_WHITE, COLOR_BG_BLACK) << 8)
abbrev pub blank : ℕ
blank = 0x0f20

unfoldable pub scroll_up : Screen → Screen
scroll_up s =
    let temp = s.csr_y - screen_h + 1 in
    let moved = memcpy s.text screen_w ((temp + 1) * screen_w) ((screen_h - temp) * screen_w) in
    record s {
      text = memset moved ((screen_h - temp) * screen_w) blank screen_w;
      csr_y = screen_h - 1;
    }

unfoldable pub scroll : Screen → Screen
unfolding scroll_up
scroll s = if leb screen_h s.csr_y then scroll_up s else s

-- The new line of `putch` and `cls` in the scrollback buffer; `none` is the call of `printf` for
-- "Scrollback overflow!", which waits for the mutex that a `printf` around it holds. What happens
-- without that mutex, where the source goes on with `buf_y` 0, is outside of this model.
unfoldable pub next_buf_line : Screen → Option Screen
next_buf_line s =
    let y = (s.buf_y + 1) % 2 ^ 32 in
    if ltb scrollback_buf_size y then none else some (record s { buf_y = y })

unfoldable pub backspace : Screen → Screen
backspace s =
    let x = if s.csr_x == 0 then s.csr_x else s.csr_x - 1 in record s { csr_x = x; buf_x = x }

unfoldable pub tab : Screen → Screen
tab s = let x = (s.csr_x + 8) / 8 * 8 % 2 ^ 8 in record s { csr_x = x; buf_x = x }

unfoldable pub carriage_return : Screen → Screen
carriage_return s = record s { csr_x = 0; buf_x = 0 }

unfoldable pub newline : Screen → Option Screen
unfolding next_buf_line
newline s = next_buf_line (record s { csr_x = 0; csr_y = (s.csr_y + 1) % 2 ^ 8; buf_x = 0 })

unfoldable pub printable : ℕ → Screen → Screen
printable c s =
    let x = (s.csr_x + 1) % 2 ^ 8 in
    record s {
      text = store s.text (s.csr_y * screen_w + s.csr_x) (bit_or c (s.attrib * 2 ^ 8));
      csr_x = x;
      buf_scrollback = elim s.buf_scrollback [
        | none ↦ none
        | some buf ↦ some (store buf ((s.buf_y * 80 + s.buf_x) % 2 ^ 32) c)
      ];
      buf_x = x;
    }

-- "If the cursor has reached the edge of the screen's width"
unfoldable pub wrap_line : Screen → Screen
wrap_line s =
    if leb screen_w s.csr_x
    then record s {
      csr_x = 0;
      csr_y = (s.csr_y + 1) % 2 ^ 8;
      buf_x = 0;
      buf_y = (s.buf_y + 1) % 2 ^ 32;
    }
    else s

-- What `putch` does for the character, before the wrap. `char` is signed: a code from 128 on is
-- negative, and not printable.
unfoldable pub put_char : ℕ → Screen → Option Screen
unfolding backspace tab carriage_return newline printable
put_char c s =
    if c == 0x08
    then some (backspace s)
    else if c == 0x09
    then some (tab s)
    else if c == 13
    then some (carriage_return s)
    else if c == 10
    then newline s
    else if leb 32 c && ltb c 128
    then some (printable c s)
    else some s

unfoldable pub putch : ℕ → Screen → Option Screen
unfolding put_char wrap_line scroll
putch c s = elim (put_char c s) [ none ↦ none | some s' ↦ some (scroll (wrap_line s')) ]

unfoldable pub puts : List ℕ → Screen → Option Screen
puts [] s = some s
puts (c ∷ cs) s = elim (putch c s) [ none ↦ none | some s' ↦ puts cs s' ]

unfoldable pub status_putch : ℕ → ℕ → Screen → Screen
status_putch x c s = record s {
  text = store s.text x (bit_or c (s.attrib_status * 2 ^ 8) % 2 ^ 16);
}

-- The colour bytes of the status line.
unfoldable pub paint_status : ℕ → ℕ → Cells → ℕ → Cells
paint_status zero i mem colour = mem
paint_status (suc n) i mem colour =
    paint_status n (i + 1) (store mem i (mem i % 2 ^ 8 + colour * 2 ^ 8)) colour

unfoldable pub clear_rows : ℕ → ℕ → Cells → ℕ → Cells
clear_rows zero i mem val = mem
clear_rows (suc n) i mem val = clear_rows n (i + 1) (memset mem (i * screen_w) val screen_w) val

unfoldable pub cls : Screen → Option Screen
cls s =
    let painted = paint_status screen_w 0 s.text s.attrib_status in
    let cleared = clear_rows (screen_h - 1) 1 painted (bit_or 0x20 (s.attrib * 2 ^ 8)) in
    next_buf_line (record s { text = cleared; csr_x = 0; csr_y = 0; buf_x = 0 })

unfoldable pub init_video : Screen → Option Screen
unfolding cls
init_video s = elim (cls s) [ none ↦ none | some s' ↦ some (record s' { csr_y = 1 }) ]

unfoldable pub settextcolor : ℕ → ℕ → Screen → Screen
settextcolor fg bg s = record s { attrib = bit_or (fg % 2 ^ 4) (bg * 2 ^ 4) % 2 ^ 8 }

-- `rel_y` as an 8-bit pattern: `csr_y` has 8 bits.
unfoldable pub locate : ℕ → ℕ → Screen → Screen
locate abs_x rel_y s = record s {
  csr_x = abs_x % 2 ^ 8;
  csr_y = (s.csr_y + rel_y) % 2 ^ 8;
  buf_x = abs_x % 2 ^ 8;
  buf_y =
      if ltb rel_y (2 ^ 7)
      then (s.buf_y + rel_y) % 2 ^ 32
      else (s.buf_y + (2 ^ 32 - (2 ^ 8 - rel_y))) % 2 ^ 32;
}

unfoldable pub settextattrib : ℕ → Screen → Screen
settextattrib a s = record s { attrib = a % 2 ^ 8 }

unfoldable pub gettextattrib : Screen → ℕ
gettextattrib s = s.attrib
