-- ===== src/Cbor.antt =====
-- CBOR: modules/data/SPDataCbor.h, SPDataEncodeCbor.h and SPDataDecodeCbor.h.
pub mod Reader
pub mod Head
pub mod Value
pub mod Float
pub mod Encode
pub mod Decode
