-- ===== src/Db/Overlap.antt =====
-- Calls of `upsert_chunk` of rs/v-m-io-db/src/lib.rs that are under way at the same time, each for
-- a chunk of its own. A call places its blob, and later it commits its row and removes the blob
-- that the row had; in between there may be steps of the others, upserts and removals of
-- entries, and passes of the cleanup.
pub mod Sparing
pub mod Uploads
pub mod Removing
pub mod Holding
pub mod Safe
use v_m_io.Common.{
  not, ◌&&◌, [], ◌∷◌, ◌++◌, ◌≡◌, ◌≢◌, Bool, true, Option, none, some, is_yes, if◌then◌else◌,
}
use v_m_io.Common.Bytes.{Bytes, dec_path}
use v_m_io.Common.Int.{ℤ}
use v_m_io.Io.{Result, ok}
use v_m_io.Blob.Layout.{FilePath}
use v_m_io.Blob.Cipher.{encrypt_chunk}
use v_m_io.Sql.Tables.{dec_chunk_key}
use v_m_io.Sql.Methods.{Engine}
use v_m_io.Db.Store.{VmIoDb, Store, blob_path, upsert, rm}
use v_m_io.Db.Chunks.{ChunkEnv, check_size, chunk_row, place_blob, commit_chunk}
use v_m_io.Db.Prune.{Item, unreadable, file, dir, Listing, end, broken, item}
use v_m_io.Db.Tasks.{CleanupPass, cleanup_pass}
use v_m_io.Db.Consistent.{path_of}
use v_m_io.Db.Life.{ChunkCall, empty_store, id_called, Step}

-- A call that has placed its blob: whether it wrote the file, and with what result.
pub record Upload : Type 0 where
  pub env : ChunkEnv
  pub call : ChunkCall
  pub wrote : Bool
  pub placed : Result (Unit {0})

abbrev pub called_key : ChunkCall → (Bytes × Bytes) × ℤ
called_key c = ((c.class, c.key), c.idx)

abbrev pub Pending : Type 0
Pending = (Bytes × Bytes) × ℤ → Option Upload

abbrev pub set_pending : Pending → (Bytes × Bytes) × ℤ → Option Upload → Pending
set_pending pending k upload q = if is_yes (dec_chunk_key q k) then upload else pending q

-- The store, and at each chunk the call for it that is under way.
pub record Shared : Type 0 where
  pub store : Store
  pub pending : Pending

-- No stale file of the listing is at the path.
unfoldable mutual
  pub spares_item : FilePath → Item → FilePath → Bool
  spares_item path unreadable here = true
  spares_item path (file none stale) here = true
  spares_item path (file (some name) stale) here =
      not (stale && is_yes (dec_path path (here ++ (name ∷ []))))
  spares_item path (dir none stale listing) here = true
  spares_item path (dir (some name) stale listing) here = spares path listing (here ++ (name ∷ []))

  pub spares : FilePath → Listing → FilePath → Bool
  spares path end here = true
  spares path broken here = true
  spares path (item i listing) here = spares_item path i here && spares path listing here

module _ (db : VmIoDb) where
  -- `upsert_chunk` after the checks of the size, to the end of the write
  unfoldable pub begin_upload : ChunkEnv → ChunkCall → Shared → Shared
  begin_upload env c u =
      let (cipher, result) = encrypt_chunk db.crypto (id_called db c) c.plain db.blob_key in
      let (wrote, (placed, disk)) = place_blob env (blob_path db result.id) cipher u.store.disk in
      record {
        store = record u.store { disk = disk };
        pending =
            set_pending u.pending (called_key c)
              (some (record { env = env; call = c; wrote = wrote; placed = placed }));
      }

  -- The rest of it, from the result of the write on
  unfoldable pub end_upload : Upload → Store → Result (Unit {0}) × Store
  end_upload p s =
      let (cipher, result) =
        encrypt_chunk db.crypto (id_called db p.call) p.call.plain db.blob_key in
      commit_chunk db p.env (chunk_row db (id_called db p.call) p.call.plain)
        (blob_path db result.id) s.tables (p.wrote, (p.placed, s.disk))

  abbrev pub ended_upload : Upload → Shared → Shared
  ended_upload p u = record {
    store = (end_upload p u.store).1;
    pending = set_pending u.pending (called_key p.call) none;
  }

  -- A chunk has one call at a time. A pass of the cleanup may run if it finds no stale file where
  -- a call under way has its blob, and `rm` may for an entry that none is for. The rest runs alone.
  pub data Turn : Shared → Shared → Type 0 where
    begun :
        (env : ChunkEnv) (c : ChunkCall) (u : Shared)
        → env.stat_works ≡ true
        → check_size c.is_final c.plain ≡ ok tt
        → u.pending (called_key c) ≡ none
        → Turn u (begin_upload env c u)
    ended :
        (p : Upload) (u : Shared)
        → u.pending (called_key p.call) ≡ some p
        → Turn u (ended_upload p u)
    entry_upserted :
        (engine : Engine) (class key : Bytes) (modified_at_micros : ℤ)
        (expires_at_micros : Option ℤ) (metadata : Option Bytes) (u : Shared)
        → Turn u (record u {
          store = (upsert engine class key modified_at_micros expires_at_micros metadata u.store).1;
        })
    swept :
        (pass : CleanupPass) (u : Shared)
        → ((k : (Bytes × Bytes) × ℤ) (q : Upload)
            → u.pending k ≡ some q
            → spares (path_of db (id_called db q.call)) pass.listing db.root_dir ≡ true)
        → Turn u (record u { store = cleanup_pass db pass u.store })
    removed_other :
        (engine : Engine) (removable : FilePath → Bool) (class key : Bytes) (u : Shared)
        → ((k : (Bytes × Bytes) × ℤ) (q : Upload)
            → u.pending k ≡ some q
            → (called_key q.call).0 ≢ (class, key))
        → Turn u (record u { store = (rm db engine removable class key u.store).1 })
    alone :
        (s : Store) (u : Shared)
        → ((k : (Bytes × Bytes) × ℤ) → u.pending k ≡ none)
        → Step db u.store s
        → Turn u (record u { store = s })

  -- What an empty store becomes.
  pub data Interleaved : Shared → Type 0 where
    idle : Interleaved (record { store = empty_store; pending = λ k. none })
    then_turn : {u u' : Shared} → Interleaved u → Turn u u' → Interleaved u'
