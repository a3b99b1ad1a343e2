-- ===== src/Observers.antt =====
-- include/srpc/common/observers: lists of callbacks that are connected, disconnected and called.
pub mod Base
pub mod Subscription
pub mod Tests
