-- ===== src/Db.antt =====
-- rs/v-m-io-db/src/lib.rs: the store, by its tables and the blob files under its root directory.
pub mod Store
pub mod Chunks
pub mod Prune
pub mod Tasks
pub mod Life
pub mod Consistent
pub mod Draining
pub mod Race
pub mod Overlap
pub mod Walk
