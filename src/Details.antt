-- ===== src/Details.antt =====
-- include/srpc/common/details: the containers of the library.
pub mod List
