-- ===== src/Lib.antt =====
-- Verification of v-m.io: a key-value store of entries with encrypted file chunks, the HTTP channel in
-- front of it, and the config server built of the two.
--
-- The parts, from the bottom:
--
-- - Common, Io: shared tests, lists, integers, byte strings, sorting; `std::io::Result` with the
--   errors that the program builds. Bytes are natural numbers, and the laws assumed of hashes and of
--   hex are stated on lists of those.
-- - Blob (rs/v-m-io-db/src/blob.rs, key.rs): what a chunk's identity is and how it is framed
--   (Blob/Frame), the names and places of blob files (Blob/Layout), deriving keys and sealing chunks
--   (Blob/Crypto, Blob/Cipher), and writing a file (Blob/Disk). The crates sha2, hkdf, aegis and hex
--   are parameters, with their documented laws as `IsCipher`, `IsCollisionFree` and `IsHex`.
-- - Sql (rs/v-m-io-db/src/sql.rs and the statements beside it in sql/): the two tables (Sql/Tables), each statement as a
--   function of them (Sql/Statements), and the methods of `Sql` (Sql/Methods), in which any call of the
--   engine may fail and a transaction that fails leaves the tables as they were; the pool of read
--   connections (Sql/Pool), the raw key literal (Sql/KeyLiteral), and the opening of the connections
--   (Sql/Open).
-- - Db (rs/v-m-io-db/src/lib.rs): `VmIoDb` over the tables and the files: Db/Store, Db/Chunks, and the
--   background tasks in Db/Prune and Db/Tasks; Db/Walk follows the walk of the cleanup to a blob. What ties the tables to the files is
--   `Db.Consistent.IsConsistent`. Db/Life takes the calls, the passes of the tasks and crashes for steps
--   from an empty store. Db/Overlap lets calls of `upsert_chunk` for different chunks
--   overlap: each runs in two halves, up to the end of the write and from there; a pass of the cleanup
--   may come between them if it finds no stale file where they have their blobs, as CLEANUP_GRACE is
--   meant to provide. Db/Race is about two places where calls meet at one chunk.
-- - Chan (rs/v-m-io-chan/src/lib.rs, cfg.rs, rs/v-m-io-types/src/api.rs): one request at the server
--   (Chan/Requests), the table of handlers (Chan/Handlers), the client (Chan/Client), the addresses to
--   bind (Chan/Bind, Chan/Eligible, Chan/Justified), `ChanSrv::new` (Chan/Start), and the connections with their
--   permits (Chan/Connections), as what a list of events makes of them; the semaphore gives permits in
--   the order of asking, as tokio documents. hyper, tokio's sockets, reqwest
--   and bincode are parameters.
-- - Back (rs/v-m-io-back/src/lib.rs): the counter of timestamps (Back/Clock), config values and api
--   keys (Back/Values), advertised addresses (Back/Announce), the server (Back/Server), which is a client of Db and Chan, and the
--   configuration with the run modes (Back/Config). base64 and serde_json are parameters, and so is
--   what opening a database finds on the disk.
-- - Cli (rs/v-m-io-cli/src/lib.rs): the subcommands (Cli/Run), and what they send and show (Cli).
-- - Examples: the theorems at concrete inputs.
--
-- A function that changes state takes the state and gives its result with the state after it; what the
-- system answers (failing calls of the engine, torn writes, the clock) is an argument. `prune_backlog`
-- loops until a batch is not full: here it runs over a list of rounds, one for each turn, and more
-- rounds than there are entries are enough. The retry loop of `upsert_value` has the 64 turns of the source.
--
-- Not modelled: the removal of empty shard directories, since the model keeps no directories; what
-- reqwest makes of a name in a URL or of a header that is not ASCII, since the names in use are plain
-- (Chan/Client passes both as they are); several calls on the store at a time (but for Db/Overlap and Db/Race), what the pragmas
-- of the connections do, the timers, the parsing of arguments, and the wait for a signal to shut down. The places
-- where the source differs from its docs are not smoothed over: the model does what the code does.
pub mod Common
pub mod Io
pub mod Blob
pub mod Sql
pub mod Db
pub mod Chan
pub mod Back
pub mod Cli
pub mod Examples
