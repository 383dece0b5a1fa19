-- ===== src/Screen.antt =====
-- screen.c: the text screen and the printing of numbers.
pub mod Itoa
pub mod Printf
pub mod Text
