-- ===== src/Delegate.antt =====
-- include/srpc/common/transport/delegates: how the bytes of a transport become messages or streams.
pub mod Message
pub mod Stream
