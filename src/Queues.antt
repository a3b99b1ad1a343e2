-- ===== src/Queues.antt =====
-- include/srpc/common/queues: queues of answers, found by key, that readers wait on.
pub mod Trait
pub mod Condition
pub mod Tests
