-- ===== src/Strings.antt =====
-- lib/string.c and lib/ctype.c: the string library.
pub mod Ctype
pub mod Mem
pub mod Str
mod Tests
