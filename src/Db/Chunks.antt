-- ===== src/Db/Chunks.antt =====
-- `VmIoDb::upsert_chunk` and `VmIoDb::get_chunk` of rs/v-m-io-db/src/lib.rs.
use v_m_io.Common.{
  ℕ, ◌*◌, Bool, true, false, not, ◌&&◌, Option, none, some, length, ltb, ◌==◌, if◌then◌else◌,
}
use v_m_io.Common.Bytes.{Bytes}
use v_m_io.Common.Int.{ℤ, pos, to_u64}
use v_m_io.Io.{
  Result, ok, err, non_final_size, final_size, finality_mismatch, corrupted_chunk, file_system,
  ◌>>=◌,
}
use v_m_io.Blob.Layout.{FilePath}
use v_m_io.Blob.Frame.{ChunkId}
use v_m_io.Blob.Cipher.{gen_id, encrypt_chunk, decrypt_chunk}
use v_m_io.Blob.Disk.{Disk, Round, write}
use v_m_io.Sql.Tables.{Tables, ChunkRow, Chunk}
use v_m_io.Sql.Methods.{Engine}
use v_m_io.Sql.Methods as Sql
use v_m_io.Db.Store.{VmIoDb, Store, blob_path, remove_file, or_else}

-- What the system answers during one `upsert_chunk`: does `metadata` of the blob file work where
-- the file is there, the rounds of `write`, and which removals work.
pub record ChunkEnv : Type 0 where
  pub engine : Engine
  pub stat_works : Bool
  pub first : Round
  pub second : Round
  pub removable : FilePath → Bool

-- 5 MiB
abbrev pub chunk_size : ℕ
chunk_size = 1024 * 1024 * 5

abbrev pub check_size : Bool → Bytes → Result (Unit {0})
check_size is_final plain =
    if not is_final && not (length plain == chunk_size)
    then err non_final_size
    else if is_final && ltb chunk_size (length plain)
    then err final_size
    else ok tt

abbrev pub has_length : ℕ → Option Bytes → Bool
has_length n none = false
has_length n (some content) = length content == n

-- A file of full length is left alone; otherwise the blob is written. With the result comes
-- whether this call wrote the file.
unfoldable pub place_blob : ChunkEnv → FilePath → Bytes → Disk → Bool × (Result (Unit {0}) × Disk)
place_blob env path cipher disk =
    if env.stat_works && has_length (length cipher) (disk path)
    then (false, (ok tt, disk))
    else (true, write env.first env.second disk path cipher)

-- The two arms of the last `match`.
unfoldable pub settle :
    VmIoDb
    → ChunkEnv
    → Bool
    → FilePath
    → Disk
    → Result (Option Bytes) × Tables
    → Result (Unit {0}) × Store
settle db env wrote path disk (err e, t) = (
  err e,
  record { tables = t; disk = if wrote then remove_file env.removable path disk else disk },
)
settle db env wrote path disk (ok none, t) = (ok tt, record { tables = t; disk = disk })
settle db env wrote path disk (ok (some prev), t) =
    (ok tt, record { tables = t; disk = remove_file env.removable (blob_path db prev) disk })

-- What follows the write of the blob.
unfoldable pub commit_chunk :
    VmIoDb
    → ChunkEnv
    → ChunkRow
    → FilePath
    → Tables
    → Bool × (Result (Unit {0}) × Disk)
    → Result (Unit {0}) × Store
unfolding settle
commit_chunk db env row path t (wrote, (err e, disk)) = (err e, record { tables = t; disk = disk })
commit_chunk db env row path t (wrote, (ok u, disk)) =
    settle db env wrote path disk (Sql.upsert_chunk env.engine row t)

abbrev pub same_bool : Bool → Bool → Bool
same_bool true b = b
same_bool false b = not b

module _ (db : VmIoDb) where
  -- The identity, the ciphertext and the row of a chunk.
  abbrev pub chunk_id : Bytes → Bytes → ℤ → Bool → Bytes → ChunkId
  chunk_id class key idx is_final plain = record {
    class = class;
    key = key;
    idx = idx;
    hash = db.crypto.sha256 plain;
    is_final = is_final;
  }

  abbrev pub chunk_row : ChunkId → Bytes → ChunkRow
  chunk_row id plain =
      let (cipher, result) = encrypt_chunk db.crypto id plain db.blob_key in
      record {
        class = id.class;
        key = id.key;
        idx = id.idx;
        blob_id = result.id;
        hash = id.hash;
        tag = result.tag;
        size = pos (length cipher);
        is_final = id.is_final;
      }

  -- `VmIoDb::upsert_chunk`, after the checks of the size
  unfoldable pub store_chunk : ChunkEnv → ChunkId → Bytes → Store → Result (Unit {0}) × Store
  store_chunk env id plain s =
      let (cipher, result) = encrypt_chunk db.crypto id plain db.blob_key in
      let path = blob_path db result.id in
      commit_chunk db env (chunk_row id plain) path s.tables (place_blob env path cipher s.disk)

  unfoldable pub upsert_chunk :
      ChunkEnv → Bytes → Bytes → ℤ → Bytes → Bool → Store → Result (Unit {0}) × Store
  upsert_chunk env class key idx plain is_final s =
      or_else s (check_size is_final plain)
        (store_chunk env (chunk_id class key idx is_final plain) plain s)

  -- The end of `get_chunk`, for a row that is there; `read` is what `tokio::fs::read` gives.
  unfoldable pub open_chunk : ChunkId → Chunk → Option Bytes → Result (Option Bytes)
  open_chunk id chunk none = err file_system
  open_chunk id chunk (some cipher) =
      if length cipher == to_u64 chunk.size
      then (do plain ← decrypt_chunk db.crypto id cipher db.blob_key chunk.tag; ok (some plain))
      else err corrupted_chunk

  abbrev pub found_id : Bytes → Bytes → ℤ → Bool → Chunk → ChunkId
  found_id class key idx is_final chunk = record {
    class = class;
    key = key;
    idx = idx;
    hash = chunk.hash;
    is_final = is_final;
  }

  abbrev pub read_file : Bool → FilePath → Disk → Option Bytes
  read_file works path disk = if works then disk path else none

  unfoldable pub get_found :
      Bool → Bytes → Bytes → ℤ → Bool → Disk → Option Chunk → Result (Option Bytes)
  unfolding open_chunk
  get_found reads class key idx is_final disk none = ok none
  get_found reads class key idx is_final disk (some chunk) =
      let id = found_id class key idx is_final chunk in
      let content = read_file reads (blob_path db (gen_id db.crypto id db.blob_key)) disk in
      if same_bool is_final chunk.is_final
      then open_chunk id chunk content
      else err finality_mismatch

  -- `VmIoDb::get_chunk`; `reads` says whether reading the file works
  unfoldable pub get_chunk :
      Engine → Bool → Bytes → Bytes → ℤ → Bool → Store → Result (Option Bytes)
  unfolding get_found
  get_chunk engine reads class key idx is_final s = do
    found ← Sql.get_chunk engine ((class, key), idx) s.tables
    get_found reads class key idx is_final s.disk found
