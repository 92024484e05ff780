-- ===== src/Text.antt =====
-- The string views of common/string, the UTF-8 of SPUnicode and the decimal texts of SPString.
pub mod View
pub mod Unicode
pub mod Decimal
