-- ===== src/Function.antt =====
-- src/function.c: the built-in functions on lists of words. A function takes the output buffer `o`
-- up to its end and gives it back longer, as in C; `argv` are the arguments after expansion.
pub mod Lists
pub mod Join
pub mod Subst
pub mod Pattern
pub mod Foreach
pub mod Let
pub mod Trimmed
pub mod Logic
pub mod Select
pub mod Patsubst
pub mod Stem
pub mod Files
