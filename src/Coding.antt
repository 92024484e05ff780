-- ===== src/Coding.antt =====
-- The text codings of common/string/SPBase64.cc.
pub mod Base64
pub mod Base16
