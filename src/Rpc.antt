-- ===== src/Rpc.antt =====
-- include/srpc/common/protobuf: what is around protobuf's calls.
pub mod Channel
pub mod Controller
