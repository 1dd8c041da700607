-- ===== src/Sql.antt =====
-- rs/v-m-io-db/src/sql.rs and the statements under rs/v-m-io-db/src/sql/.
pub mod Tables
pub mod Statements
pub mod Methods
pub mod Transact
pub mod Outcomes
pub mod WellFormed
pub mod Rows
pub mod Glob
pub mod Listing
pub mod Pruning
pub mod Newest
pub mod Converge
pub mod Pool
pub mod KeyLiteral
pub mod Open
