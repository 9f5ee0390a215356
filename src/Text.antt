-- ===== src/Text.antt =====
-- The functions of Go's package `strings` and of `encoding/hex` that the program calls.
pub mod Trim
pub mod Hex
pub mod Prefix
pub mod Parts
pub mod Quote
