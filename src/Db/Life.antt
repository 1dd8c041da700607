-- ===== src/Db/Life.antt =====
-- The life of a `VmIoDb` of rs/v-m-io-db/src/lib.rs: calls of its methods and passes of its tasks,
-- one after the other, from an empty store, and processes that end in the midst of a write.
pub mod Safe
pub mod Rows
pub mod Bounds
pub mod Integrity
use v_m_io.Common.{ℕ, ◌^◌, ◌<◌, ◌≡◌, Bool, true, Option, none, List, [], length}
use v_m_io.Common.Bytes.{Bytes}
use v_m_io.Common.Int.{ℤ, IsI64}
use v_m_io.Io.{Result, ok}
use v_m_io.Blob.Layout.{FilePath}
use v_m_io.Blob.Frame.{ChunkId}
use v_m_io.Blob.Cipher.{encrypt_chunk}
use v_m_io.Blob.Disk.{Disk}
use v_m_io.Sql.Methods.{Engine}
use v_m_io.Db.Store.{VmIoDb, Store, blob_path, upsert, rm}
use v_m_io.Db.Chunks.{ChunkEnv, chunk_id, check_size, place_blob, upsert_chunk}
use v_m_io.Db.Prune.{PruneRound}
use v_m_io.Db.Tasks.{prune_task, CleanupPass, cleanup_task}

-- What a caller of `upsert_chunk` can pass.
pub record ChunkCall : Type 0 where
  pub class : Bytes
  pub key : Bytes
  pub idx : ℤ
  pub plain : Bytes
  pub is_final : Bool
  pub class_fits : length class < 2 ^ 64
  pub key_fits : length key < 2 ^ 64
  pub idx_fits : IsI64 idx

abbrev pub empty_store : Store
empty_store = record { tables = record { entries = []; chunks = [] }; disk = λ path. none }

module _ (db : VmIoDb) where
  abbrev pub id_called : ChunkCall → ChunkId
  id_called c = chunk_id db c.class c.key c.idx c.is_final c.plain

  -- The process ends in `upsert_chunk` after the blob was placed, whole or in part.
  unfoldable pub cut_chunk : ChunkEnv → ChunkCall → Store → Store
  cut_chunk env c s =
      let (cipher, result) = encrypt_chunk db.crypto (id_called c) c.plain db.blob_key in
      record s { disk = (place_blob env (blob_path db result.id) cipher s.disk).1.1 }

  -- One call or task, with whatever the system answers; `metadata` of a blob file works.
  pub data Step : Store → Store → Type 0 where
    upserted :
        (engine : Engine) (class key : Bytes) (modified_at_micros : ℤ)
        (expires_at_micros : Option ℤ) (metadata : Option Bytes) (s : Store)
        → Step s (upsert engine class key modified_at_micros expires_at_micros metadata s).1
    chunk_upserted :
        (env : ChunkEnv) (c : ChunkCall) (s : Store)
        → env.stat_works ≡ true
        → Step s (upsert_chunk db env c.class c.key c.idx c.plain c.is_final s).1
    chunk_cut :
        (env : ChunkEnv) (c : ChunkCall) (s : Store)
        → env.stat_works ≡ true
        → check_size c.is_final c.plain ≡ ok tt
        → Step s (cut_chunk env c s)
    removed :
        (engine : Engine) (removable : FilePath → Bool) (class key : Bytes) (s : Store)
        → Step s (rm db engine removable class key s).1
    pruned : (passes : List (List PruneRound)) (s : Store) → Step s (prune_task db passes s)
    cleaned : (passes : List CleanupPass) (s : Store) → Step s (cleanup_task db passes s)

  -- What an empty store becomes.
  pub data Reached : Store → Type 0 where
    created : Reached empty_store
    then_step : {s s' : Store} → Reached s → Step s s' → Reached s'
