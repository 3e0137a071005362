-- ===== src/Paper.antt =====
-- packages/paper: the codecs and the profile of the paper seal.
pub mod Cbor
pub mod Base45
pub mod Der
pub mod Cose
pub mod Seal
pub mod Qr
