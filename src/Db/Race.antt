-- ===== src/Db/Race.antt =====
-- `cleanup_dir` of rs/v-m-io-db/src/lib.rs asks for the row of a blob, and then removes the file;
-- an `upsert_chunk` may run in between.
pub mod Rewrite
use v_m_io.Common.{◌≡◌, refl, Bool, true, false, none, some, length, ◌==◌, ==_iff}
use v_m_io.Common.Bytes.{Bytes}
use v_m_io.Common.Int.{ℤ}
use v_m_io.Io.{ok, err, file_system}
use v_m_io.Blob.Layout.{FilePath}
use v_m_io.Blob.Disk.{set_file_self}
use v_m_io.Sql.Tables.{ChunkRow}
use v_m_io.Sql.Statements.{find_chunk, get_chunk_row, blob_id_row}
use v_m_io.Sql.Methods.{working}
use v_m_io.Sql.Methods as Sql
use v_m_io.Db.Store.{VmIoDb, Store}
use v_m_io.Db.Chunks.{ChunkEnv, chunk_id, chunk_row, place_blob, upsert_chunk, get_found, get_chunk}
use v_m_io.Db.Prune.{reap}
use v_m_io.Db.Consistent.{cipher_of, path_of}
use v_m_io.Db.Consistent.Reads.{same_bool_refl, stored-found}

module _ (db : VmIoDb) (env : ChunkEnv) (class key : Bytes) (idx : ℤ) (is_final : Bool)
    (plain : Bytes) where
  abbrev row : ChunkRow
  row = chunk_row db (chunk_id db class key idx is_final plain) plain

  abbrev path : FilePath
  path = path_of db (chunk_id db class key idx is_final plain)

  abbrev cipher : Bytes
  cipher = cipher_of db (chunk_id db class key idx is_final plain) plain

  -- The answer of the query is that of the store before the upsert, the removal comes after it.
  unfoldable pub overtaken : (FilePath → Bool) → Store → Store
  overtaken removable s =
      let after = (upsert_chunk db env class key idx plain is_final s).1 in
      record after {
        disk =
            (reap db removable path (Sql.blob_id_exists working row.blob_id s.tables) after.disk).1;
      }

  pub get_chunk_lost :
      (s : Store)
      → find_chunk ((class, key), idx) s.tables.chunks ≡ some row
      → s.disk path ≡ none
      → get_chunk db working true class key idx is_final s ≡ err file_system
  unfolding get_chunk Sql.get_chunk get_chunk_row get_found
  get_chunk_lost s found gone = rw (found, same_bool_refl is_final, gone)

  -- If a file holds the blob of a content that no row refers to, an upsert_chunk of the content
  -- whose metadata call works succeeds after cleanup_dir asked for the row and before it removes
  -- the file, and the removal works: then the upsert wrote no file of its own, its row is in the
  -- table, and get_chunk of it fails for the file system.
  pub overtaken_loses :
      (removable : FilePath → Bool) (s : Store)
      → env.stat_works ≡ true
      → s.disk path ≡ some cipher
      → blob_id_row row.blob_id s.tables ≡ false
      → removable path ≡ true
      → (upsert_chunk db env class key idx plain is_final s).0 ≡ ok tt
      → ((place_blob env path cipher s.disk).0 ≡ false)
        × (find_chunk ((class, key), idx) (overtaken removable s).tables.chunks ≡ some row)
        × (get_chunk db working true class key idx is_final (overtaken removable s)
            ≡ err file_system)
  unfolding place_blob overtaken Sql.blob_id_exists
  overtaken_loses removable s stat file free removes done =
      let full : (length cipher == length cipher) ≡ true = (==_iff _ _).1 refl in
      let found = stored-found db env class key idx plain is_final s done in
      let gone : (overtaken removable s).disk path ≡ none = rw (free, removes, set_file_self) in
      (rw (stat, file, full), found, get_chunk_lost (overtaken removable s) found gone)
