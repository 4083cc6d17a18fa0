-- ===== src/Util.antt =====
-- util.go: byte-level encodings.
pub mod BigEndian
pub mod Packing
pub mod Padding
pub mod BigInt
pub mod Web64
