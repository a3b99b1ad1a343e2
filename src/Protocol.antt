-- ===== src/Protocol.antt =====
-- include/srpc/common/protocol: messages with a tag and a checksum.
pub mod Binary
