-- ===== src/Blob.antt =====
-- rs/v-m-io-db/src/blob.rs and key.rs: the files that hold the chunks of an entry.
pub mod Crypto
pub mod Frame
pub mod Layout
pub mod Cipher
pub mod Disk
