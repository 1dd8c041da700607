-- ===== src/Db/Race/Rewrite.antt =====
-- Two calls of `upsert_chunk` of rs/v-m-io-db/src/lib.rs for one chunk: one sends the content that
-- is there, the other replaces it between the first call's look at the file and its commit.
use v_m_io.Common.{
  ◌≡◌, ◌≢◌, refl, sym, ap, ◌∙◌, subst, Bool, true, false, Option, none, some, arith, inl, inr, ◌==◌,
  ==_iff, length, is_yes, is_yes→, Bool-cases,
}
use v_m_io.Common.Bytes.{Bytes, dec_bytes}
use v_m_io.Common.Int.{ℤ}
use v_m_io.Io.{Result, ok, err, file_system}
use v_m_io.Blob.Layout.{FilePath}
use v_m_io.Blob.Frame.{ChunkId}
use v_m_io.Blob.Cipher.{gen_id, encrypt_chunk}
use v_m_io.Blob.Disk.{Disk, set_file_self}
use v_m_io.Sql.Tables.{Tables, ChunkRow, chunk_key}
use v_m_io.Sql.Statements.{find_chunk, get_chunk_blob_id}
use v_m_io.Sql.Methods.{Engine, working, drop_same}
use v_m_io.Sql.Methods as Sql
use v_m_io.Db.Store.{VmIoDb, Store, blob_path, remove_file, or_else}
use v_m_io.Db.Chunks.{
  ChunkEnv, chunk_id, chunk_row, check_size, place_blob, settle, commit_chunk, store_chunk,
  upsert_chunk, get_chunk,
}
use v_m_io.Db.Consistent.{cipher_of, path_of}
use v_m_io.Db.Consistent.Settle.{upsert_chunk-Committed}
use v_m_io.Db.Consistent.Reads.{commit_chunk-Found}
use v_m_io.Db.Race.{get_chunk_lost}

module _ (db : VmIoDb) where
  -- Where nothing is, nothing is after a removal.
  removed_none :
      (removable : FilePath → Bool) (p q : FilePath) (disk : Disk)
      → disk q ≡ none
      → remove_file removable p disk q ≡ none
  removed_none removable p q disk h = ground arith

  removed_self :
      (removable : FilePath → Bool) (p : FilePath) (disk : Disk)
      → removable p ≡ true
      → remove_file removable p disk p ≡ none
  removed_self removable p disk h = rw (h, set_file_self)

  settle-none :
      (env : ChunkEnv) (wrote : Bool) (path q : FilePath) (disk : Disk)
      (r : Result (Option Bytes) × Tables)
      → disk q ≡ none
      → (settle db env wrote path disk r).1.disk q ≡ none
  unfolding settle
  settle-none env wrote path q disk (ok none, t) h = h
  settle-none env wrote path q disk (ok (some prev), t) h = removed_none env.removable _ q disk h
  settle-none env true path q disk (err e, t) h = removed_none env.removable path q disk h
  settle-none env false path q disk (err e, t) h = h

  -- A commit that replaces the row removes the blob before.
  module _ (env : ChunkEnv) (row before : ChunkRow) (t : Tables)
      (present : find_chunk (chunk_key row) t.chunks ≡ some before)
      (differs : before.blob_id ≢ row.blob_id)
      (removes : env.removable (blob_path db before.blob_id) ≡ true) where
    replaced_blob :
        drop_same row.blob_id (get_chunk_blob_id (chunk_key row) t) ≡ some before.blob_id
    unfolding get_chunk_blob_id
    replaced_blob = elim (Bool-cases (is_yes (dec_bytes before.blob_id row.blob_id))) [
      | inl e ↦ absurd (differs (is_yes→ (dec_bytes before.blob_id row.blob_id) e))
      | inr e ↦ rw (present, e)
    ]

    settle_replaces :
        (wrote : Bool) (path : FilePath) (disk : Disk)
        → (settle db env wrote path disk (Sql.upsert_chunk env.engine row t)).0 ≡ ok tt
        → (settle db env wrote path disk (Sql.upsert_chunk env.engine row t)).1.disk
            (blob_path db before.blob_id)
          ≡ none
    unfolding settle
    settle_replaces wrote path disk = elim (upsert_chunk-Committed env.engine row t) [
      | inl (e, failed) ↦ rw failed (λ h. cc)
      | inr (t', outcome, done) ↦
          rw done (rw replaced_blob (λ h. removed_self env.removable _ disk removes))
    ]

    commit_replaces :
        (path : FilePath) (placed : Bool × (Result (Unit {0}) × Disk))
        → (commit_chunk db env row path t placed).0 ≡ ok tt
        → (commit_chunk db env row path t placed).1.disk (blob_path db before.blob_id) ≡ none
    unfolding commit_chunk
    commit_replaces path (wrote, (err e, disk)) h = cc
    commit_replaces path (wrote, (ok u, disk)) h = settle_replaces wrote path disk h

  -- An upsert of another content removes the blob of the content before.
  upsert_chunk_replaces :
      (env : ChunkEnv) (class key : Bytes) (idx : ℤ) (plain : Bytes) (is_final : Bool) (s : Store)
      (before : ChunkRow)
      → find_chunk ((class, key), idx) s.tables.chunks ≡ some before
      → before.blob_id ≢ (chunk_row db (chunk_id db class key idx is_final plain) plain).blob_id
      → env.removable (blob_path db before.blob_id) ≡ true
      → (upsert_chunk db env class key idx plain is_final s).0 ≡ ok tt
      → (upsert_chunk db env class key idx plain is_final s).1.disk (blob_path db before.blob_id)
        ≡ none
  unfolding upsert_chunk store_chunk
  upsert_chunk_replaces env class key idx plain is_final s before present differs removes =
      let id = chunk_id db class key idx is_final plain in
      elim (check_size is_final plain)
        as (λ r.
          (or_else s r (store_chunk db env id plain s)).0 ≡ ok tt
          → (or_else s r (store_chunk db env id plain s)).1.disk (blob_path db before.blob_id)
            ≡ none) [
              | ok u ↦
                  commit_replaces env (chunk_row db id plain) before s.tables present differs
                    removes _ _
              | err e ↦ λ h. cc
            ]

module _ (db : VmIoDb) (env other_env : ChunkEnv) (class key : Bytes) (idx : ℤ)
    (is_final other_is_final : Bool) (plain other_plain : Bytes) where
  abbrev id : ChunkId
  id = chunk_id db class key idx is_final plain

  abbrev other_id : ChunkId
  other_id = chunk_id db class key idx other_is_final other_plain

  -- The rest of the call, once the blob is placed: another call for the chunk runs before the
  -- statement.
  abbrev commit_late : Store → Bool × (Result (Unit {0}) × Disk) → Result (Unit {0}) × Store
  commit_late s (wrote, (placed, disk)) =
      let between =
        (upsert_chunk db other_env class key idx other_plain other_is_final
          (record s { disk = disk })).1 in
      commit_chunk db env (chunk_row db id plain) (path_of db id) between.tables
        (wrote, (placed, between.disk))

  unfoldable pub overlapped : Store → Result (Unit {0}) × Store
  unfolding place_blob
  overlapped s = commit_late s (place_blob env (path_of db id) (cipher_of db id plain) s.disk)

  kept :
      (s : Store)
      → env.stat_works ≡ true
      → s.disk (path_of db id) ≡ some (cipher_of db id plain)
      → place_blob env (path_of db id) (cipher_of db id plain) s.disk ≡ (false, (ok tt, s.disk))
  unfolding place_blob
  kept s stat file =
      let full : (length (cipher_of db id plain) == length (cipher_of db id plain)) ≡ true =
        (==_iff (length (cipher_of db id plain)) (length (cipher_of db id plain))).1 refl in
      rw (stat, file, full)

  commit_none :
      (t : Tables) (disk : Disk) (q : FilePath)
      → disk q ≡ none
      → (commit_chunk db env
            (chunk_row db id plain)
            (path_of db id)
            t
            (false, (ok tt, disk))).1.disk
          q
        ≡ none
  unfolding commit_chunk
  commit_none t disk q h = settle-none db env false (path_of db id) q disk _ h

  -- If an upsert_chunk of the content that is there looks at its file, then another upsert_chunk
  -- for the chunk replaces the content and removes the file, and then the first commits, and both
  -- succeed (the metadata call works for the first, the removal for the other, and the blob ids
  -- differ): the row of the first content is in the table, and get_chunk of it fails for the file
  -- system.
  pub overlapped_loses :
      (s : Store)
      → env.stat_works ≡ true
      → find_chunk ((class, key), idx) s.tables.chunks ≡ some (chunk_row db id plain)
      → s.disk (path_of db id) ≡ some (cipher_of db id plain)
      → (chunk_row db id plain).blob_id ≢ (chunk_row db other_id other_plain).blob_id
      → other_env.removable (path_of db id) ≡ true
      → (upsert_chunk db other_env class key idx other_plain other_is_final s).0 ≡ ok tt
      → (overlapped s).0 ≡ ok tt
      → (find_chunk ((class, key), idx) (overlapped s).1.tables.chunks
          ≡ some (chunk_row db id plain))
        × (get_chunk db working true class key idx is_final (overlapped s).1 ≡ err file_system)
  unfolding overlapped gen_id encrypt_chunk
  overlapped_loses s stat present file differs removes other_done done =
      let between = (upsert_chunk db other_env class key idx other_plain other_is_final s).1 in
      let gone : between.disk (path_of db id) ≡ none =
        upsert_chunk_replaces db other_env class key idx other_plain other_is_final s
          (chunk_row db id plain) present differs removes other_done in
      let after = commit_late s (false, (ok tt, s.disk)) in
      let same : after ≡ overlapped s = ap (commit_late s) (sym (kept s stat file)) in
      let found =
        commit_chunk-Found db env (chunk_row db id plain) (path_of db id) between.tables
          (false, (ok tt, between.disk))
          (ap (λ (r : Result (Unit {0}) × Store). r.0) same ∙ done) in
      let lost =
        get_chunk_lost db env class key idx is_final plain after.1 found
          (commit_none between.tables between.disk (path_of db id) gone) in
      subst
        (λ (r : Result (Unit {0}) × Store).
          (find_chunk ((class, key), idx) r.1.tables.chunks ≡ some (chunk_row db id plain))
          × (get_chunk db working true class key idx is_final r.1 ≡ err file_system))
        same (found, lost)
