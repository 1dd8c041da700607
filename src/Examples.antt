-- ===== src/Examples.antt =====
-- Witnesses: the theorems at concrete inputs.
mod Overlaps
pub mod Crates
pub mod Blobs
pub mod Stores
pub mod Rows
pub mod Codecs
pub mod Servers
pub mod Keys
pub mod Lives
pub mod Runs
pub mod Commands
