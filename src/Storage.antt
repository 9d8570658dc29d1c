-- ===== src/Storage.antt =====
-- crates/latiq-storage: where a pond's files are.
pub mod LocalFs
