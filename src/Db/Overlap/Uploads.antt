-- ===== src/Db/Overlap/Uploads.antt =====
-- The second half of `upsert_chunk` of rs/v-m-io-db/src/lib.rs on a store that other calls may
-- have changed since the first.
use v_m_io.Common.{
  ◌≤◌, ◌≡◌, ◌≢◌, refl, sym, ap, ◌∙◌, true, some, List, [], ◌∷◌, length, All, Bool-cases,
  Option-cases, inl, inr,
}
use v_m_io.Common.Bytes.{Bytes}
use v_m_io.Common.Int.{ℤ}
use v_m_io.Io.{ok, err}
use v_m_io.Blob.Layout.{FilePath}
use v_m_io.Blob.Frame.{ChunkId, IsMachine}
use v_m_io.Blob.Cipher.{gen_id, encrypt_chunk}
use v_m_io.Sql.Tables.{ChunkRow, chunk_key}
use v_m_io.Sql.Statements.{find_chunk, get_chunk_blob_id}
use v_m_io.Sql.Methods.{drop_same}
use v_m_io.Db.Store.{VmIoDb, Store, blob_path}
use v_m_io.Db.Chunks.{chunk_row, chunk_size, settle, commit_chunk}
use v_m_io.Db.Consistent.{IsSound, IsConsistent, id_of, cipher_of, path_of, path_of_injective}
use v_m_io.Db.Consistent.Settle.{
  remove_file_ne, upsert_chunk-Committed, drop_same-some, settle-IsConsistent,
}
use v_m_io.Db.Consistent.Methods.{new-Backed}
use v_m_io.Db.Life.{ChunkCall, id_called}
use v_m_io.Db.Life.Rows.{commit_chunk-Rows}
use v_m_io.Db.Overlap.{Upload, called_key, end_upload}

pub called-IsMachine : (db : VmIoDb) (c : ChunkCall) → IsMachine (id_called db c)
called-IsMachine db c = record {
  class_fits = c.class_fits;
  key_fits = c.key_fits;
  idx_fits = c.idx_fits;
}

abbrev pub id_key : ChunkId → (Bytes × Bytes) × ℤ
id_key i = ((i.class, i.key), i.idx)

all_units : {A : Type 0} (xs : List A) → All (λ x. Unit {0}) xs
all_units [] = tt
all_units (x ∷ xs) = (tt, all_units xs)

module _ (db : VmIoDb) where
  abbrev pub upload_path : ChunkCall → FilePath
  upload_path c = path_of db (id_called db c)

  -- What a call relies on between its two halves: its blob is there, and if it wrote the file, no
  -- row refers to it.
  pub record Held (s : Store) (p : Upload) : Type 0 where
    pub small : length p.call.plain ≤ chunk_size
    pub file :
        p.placed ≡ ok tt
        → s.disk (upload_path p.call) ≡ some (cipher_of db (id_called db p.call) p.call.plain)
    pub fresh :
        p.wrote ≡ true → All (λ r. path_of db (id_of r) ≢ upload_path p.call) s.tables.chunks

module _ (db : VmIoDb) (sound : IsSound db) where
  -- Blobs of different chunks lie at different places.
  pub paths_apart :
      (a b : ChunkId)
      → IsMachine a
      → IsMachine b
      → id_key a ≢ id_key b
      → path_of db a ≢ path_of db b
  paths_apart a b ha hb ne e = ne (ap id_key (path_of_injective db sound a b ha hb e))

  module _ (s : Store) (c : IsConsistent db s) (p : Upload) (held : Held db s p) where
    abbrev row : ChunkRow
    row = chunk_row db (id_called db p.call) p.call.plain

    pub end_upload-IsConsistent : IsConsistent db (end_upload db p s).1
    unfolding end_upload commit_chunk gen_id encrypt_chunk
    end_upload-IsConsistent =
        elim p.placed
            as (λ r.
              p.placed ≡ r
              → IsConsistent db
                  (commit_chunk db p.env row (upload_path db p.call) s.tables
                    (p.wrote, (r, s.disk))).1) [
                      | ok u ↦ λ e.
                          settle-IsConsistent db sound p.env s.tables c.tables row p.wrote s.disk
                            c.backed c.intact held.fresh
                            (new-Backed db sound (id_called db p.call) p.call.plain s.disk
                              (called-IsMachine db p.call) held.small refl (held.file e))
                      | err x ↦
                          λ e. record { tables = c.tables; backed = c.backed; intact = c.intact }
                    ]
          refl

    -- A place that is neither the upload's nor that of a blob under its key is left alone.
    pub end_upload-others :
        (q : FilePath)
        → q ≢ upload_path db p.call
        → ((before : ChunkRow)
            → find_chunk (called_key p.call) s.tables.chunks ≡ some before
            → q ≢ blob_path db before.blob_id)
        → (end_upload db p s).1.disk q ≡ s.disk q
    unfolding end_upload commit_chunk settle gen_id encrypt_chunk
    end_upload-others q own replaced =
        elim p.placed
          as (λ r.
            (commit_chunk db p.env row (upload_path db p.call) s.tables
                (p.wrote, (r, s.disk))).1.disk
              q
            ≡ s.disk q) [
              | ok u ↦ elim (upsert_chunk-Committed p.env.engine row s.tables) [
                | inl (e, failed) ↦ rw failed (elim (Bool-cases p.wrote) [
                  | inl w ↦
                      rw w (remove_file_ne p.env.removable (upload_path db p.call) q s.disk own)
                  | inr w ↦ rw w refl
                ])
                | inr (t', outcome, done) ↦
                    rw done
                      (elim (Option-cases
                        (drop_same row.blob_id (get_chunk_blob_id (chunk_key row) s.tables))) [
                          | inl e ↦ rw e refl
                          | inr (prev, e) ↦
                              let (before, present, is_prev, ne) =
                                drop_same-some row s.tables prev e in
                              rw e (
                                remove_file_ne p.env.removable (blob_path db prev) q s.disk (λ same.
                                  replaced before present (same ∙ ap (blob_path db) (sym is_prev))))
                        ])
              ]
              | err x ↦ refl
            ]

    pub end_upload-rows :
        (Q : ChunkRow → Type 0)
        → Q row
        → All Q s.tables.chunks
        → All Q (end_upload db p s).1.tables.chunks
    unfolding end_upload encrypt_chunk gen_id
    end_upload-rows Q q h =
        (commit_chunk-Rows db (λ e. Unit {0}) Q p.env row (upload_path db p.call) s.tables
          (p.wrote, (p.placed, s.disk)) q (all_units s.tables.entries, h)).1
