-- ===== src/Screen/Text/Cursor.antt =====
-- screen.c: the cursor stays on the screen, and what scrolling shows.
use smp_boot.Base.{
  ℕ, ◌+◌, ◌-◌, ◌*◌, ◌≤◌, ◌<◌, ◌≡◌, some, ◌==◌, if◌then◌else◌, arith, ap, ◌∙◌, Option-cases, inl,
  inr,
}
use smp_boot.Clib.Blocks.{memcpy, memset_lem, memcpy_down}
use smp_boot.Screen.Text.{
  Screen, screen_h, screen_w, blank, scroll, putch, put_char, wrap_line, next_buf_line,
}

-- The cursor is on the screen, below the status line.
pub record OnScreen (s : Screen) : Type 0 where
  pub x_in : s.csr_x < screen_w
  pub y_in : s.csr_y < screen_h
  pub below : 1 ≤ s.csr_y

-- The cursor after the character itself and before the wrap.
record Pending (s : Screen) : Type 0 where
  x_le : s.csr_x ≤ screen_w
  y_le : s.csr_y ≤ screen_h
  y_pos : 1 ≤ s.csr_y
  at_edge : s.csr_x ≡ screen_w → s.csr_y < screen_h

-- The cursor after the wrap and before the scrolling.
record Wrapped (s : Screen) : Type 0 where
  x_in : s.csr_x < screen_w
  y_le : s.csr_y ≤ screen_h
  y_pos : 1 ≤ s.csr_y

abbrev SameStatus : Screen → Screen → Type 0
SameStatus s s' = (a : ℕ) → a < screen_w → s'.text a ≡ s.text a

put_char-Pending : (c : ℕ) (s s' : Screen) → OnScreen s → put_char c s ≡ some s' → Pending s'
unfolding put_char next_buf_line
put_char-Pending c s s' on e = ground arith

put_char-SameStatus :
    (c : ℕ) (s s' : Screen) → OnScreen s → put_char c s ≡ some s' → SameStatus s s'
unfolding put_char next_buf_line
put_char-SameStatus c s s' on e = λ a h. ground arith

wrap_line-Wrapped : (s : Screen) → Pending s → Wrapped (wrap_line s)
unfolding wrap_line
wrap_line-Wrapped s h = ground arith

wrap_line-SameStatus : (s : Screen) → SameStatus s (wrap_line s)
unfolding wrap_line
wrap_line-SameStatus s a h = ground arith

scroll-OnScreen : (s : Screen) → Wrapped s → OnScreen (scroll s)
unfolding scroll
scroll-OnScreen s h = ground arith

scroll-SameStatus : (s : Screen) → Wrapped s → SameStatus s (scroll s)
unfolding scroll
scroll-SameStatus s h a ha =
    let temp = s.csr_y - screen_h + 1 in
    let count = (screen_h - temp) * screen_w in
    let moved = memcpy s.text screen_w ((temp + 1) * screen_w) count in
    ground (
      arith,
      memset_lem screen_w moved count blank a,
      memcpy_down count s.text screen_w ((temp + 1) * screen_w) a,
    )

-- `putch` keeps the cursor on the screen and below the status line, whatever the character, and
-- leaves the status line as it is.
pub putch-OnScreen :
    (c : ℕ) (s s' : Screen)
    → OnScreen s
    → putch c s ≡ some s'
    → OnScreen s' × ((a : ℕ) → a < screen_w → s'.text a ≡ s.text a)
unfolding putch
putch-OnScreen c s s' on e = elim (Option-cases (put_char c s)) [
  | inl overflow ↦ absurd (ground arith)
  | inr (s1, put) ↦
      let wrapped = wrap_line-Wrapped s1 (put_char-Pending c s s1 on put) in
      let same : scroll (wrap_line s1) ≡ s' = ground arith in
      rw (← same) (
        scroll-OnScreen (wrap_line s1) wrapped,
        λ a h.
            scroll-SameStatus (wrap_line s1) wrapped a h
            ∙ wrap_line-SameStatus s1 a h
            ∙ put_char-SameStatus c s s1 on put a h,
      )
]

-- Scrolling from the row below the last shows each row one row higher, blanks the last row and
-- leaves the status line.
pub scroll_lem :
    (s : Screen) (row x : ℕ)
    → s.csr_y ≡ screen_h
    → x < screen_w
    → row < screen_h
    → ((scroll s).text (row * screen_w + x) ≡ (
        if row == 0
        then s.text x
        else if row == 24
        then blank
        else s.text ((row + 1) * screen_w + x)))
      × ((scroll s).csr_y ≡ 24)
unfolding scroll
scroll_lem s row x e hx hr =
    let moved = memcpy s.text screen_w (2 * screen_w) (24 * screen_w) in
    let adr = row * screen_w + x in
    rw e (
      ground (
        arith,
        memset_lem screen_w moved (24 * screen_w) blank adr,
        memcpy_down (24 * screen_w) s.text screen_w (2 * screen_w) adr,
        ap s.text {x = adr - screen_w + 2 * screen_w} {y = (row + 1) * screen_w + x},
        ap s.text {x = adr} {y = x},
      ))
