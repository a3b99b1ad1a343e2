-- ===== src/Hash.antt =====
-- include/srpc/common/hash: the checksums that the binary protocol appends to a message.
pub mod Hasher
pub mod Crc32
mod Tests
