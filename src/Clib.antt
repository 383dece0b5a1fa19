-- ===== src/Clib.antt =====
-- lib.c and lib.h: the bit macros, the memory and string functions, and the number functions.
pub mod Masks
pub mod Numbers
pub mod Blocks
pub mod Strings
pub mod Division
