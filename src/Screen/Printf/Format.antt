-- ===== src/Screen/Printf/Format.antt =====
-- screen.c: what `vprintf` prints for a format that is put together from its pieces.
use smp_boot.Base.{ℕ, ◌<◌}

-- A character that ends a directive.
abbrev pub IsEnd : ℕ → Type 0
IsEnd conv = b'9' < conv
