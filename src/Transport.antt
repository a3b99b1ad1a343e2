-- ===== src/Transport.antt =====
-- include/srpc/common/transport: what goes out through a socket.
pub mod Datagram
pub mod Stream
