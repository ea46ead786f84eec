-- ===== src/Text.antt =====
-- What the client uses of the standard library's `strconv`, `strings` and `unicode/utf8`, over bytes.
pub mod Utf8
pub mod Decimal
pub mod Space
