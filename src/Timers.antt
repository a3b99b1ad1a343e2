-- ===== src/Timers.antt =====
-- include/srpc/common/timers: timers over asio's.
pub mod Periodical
