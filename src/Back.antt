-- ===== src/Back.antt =====
-- The backend: rs/v-m-io-back, which serves a config store over the channel.
pub mod Clock
pub mod Values
pub mod Announce
pub mod Ahead
pub mod Keeps
pub mod Reading
pub mod Writes
pub mod Server
pub mod Config
