-- ===== src/Text.antt =====
-- The functions of Go's `strings`, `strconv` and `path/filepath` that the services call, over the
-- code points of a text.
pub mod Space
pub mod Paths
pub mod Decimal
