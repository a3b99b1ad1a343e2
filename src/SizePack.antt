-- ===== src/SizePack.antt =====
-- include/srpc/common/sizepack: how a length is written in front of a message.
-- `Policy` is the static interface that the templates share. `Varint`, `Fixint`, `Absent` (the
-- source's `none`) and `ZigZag` are the four headers; each policy is given as a `Policy` value.
pub mod Policy
pub mod Varint
pub mod Fixint
pub mod Absent
pub mod ZigZag
mod Tests
