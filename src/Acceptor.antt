-- ===== src/Acceptor.antt =====
-- include/srpc/server/acceptor: what takes clients in.
pub mod Interface
pub mod Tcp
pub mod Udp
