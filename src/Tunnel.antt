-- ===== src/Tunnel.antt =====
-- tst: the tunnel between network devices that is built on the library. Point is the device's
-- reader and writer.
pub mod Point
pub mod Packets
pub mod Server
