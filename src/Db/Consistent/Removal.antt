-- ===== src/Db/Consistent/Removal.antt =====
-- Removing entries with the blobs of their chunks, in `rm` and `prune_backlog` of rs/v-m-io-
-- db/src/lib.rs, and the chunks that stay.
use v_m_io.Common.{
  ◌≡◌, ◌≢◌, refl, sym, ap, ◌∙◌, Bool, true, false, not, some, List, [], ◌∷◌, map, arith, All,
  All-both, All-keep_map, any, any-keep, keep, Bool-cases, inl, inr, is_yes→,
}
use v_m_io.Common.Bytes.{Bytes, dec_pair}
use v_m_io.Blob.Layout.{FilePath}
use v_m_io.Blob.Frame.{ChunkId, IsMachine}
use v_m_io.Blob.Disk.{Disk}
use v_m_io.Sql.Tables.{Tables, EntryRow, ChunkRow, chunk_pair, entry_pair, same_pair}
use v_m_io.Sql.Statements.{delete_entries, select_blob_ids}
use v_m_io.Sql.WellFormed.{delete_entries-IsWellFormed}
use v_m_io.Db.Store.{VmIoDb, Store, blob_path, remove_file, remove_blobs}
use v_m_io.Db.Consistent.{
  IsSound, IsConsistent, id_of, path_of, IsIntact-shrink, Backed-frame, path_of_injective,
}
use v_m_io.Db.Consistent.Settle.{remove_file_ne, remove_file-shrink}

module _ (db : VmIoDb) (removable : FilePath → Bool) where
  pub remove_blobs_ne :
      (ids : List Bytes) (q : FilePath) (disk : Disk)
      → All (λ id. q ≢ blob_path db id) ids
      → remove_blobs db removable ids disk q ≡ disk q
  unfolding remove_blobs
  remove_blobs_ne [] q disk h = refl
  remove_blobs_ne (id ∷ ids) q disk h =
      remove_blobs_ne ids q (remove_file removable (blob_path db id) disk) h.1
      ∙ remove_file_ne removable (blob_path db id) q disk h.0

  remove_blobs-shrink :
      (ids : List Bytes) (q : FilePath) (disk : Disk) (content : Bytes)
      → remove_blobs db removable ids disk q ≡ some content
      → disk q ≡ some content
  unfolding remove_blobs
  remove_blobs-shrink [] q disk content h = h
  remove_blobs-shrink (id ∷ ids) q disk content h =
      remove_file-shrink removable (blob_path db id) q disk content
        (remove_blobs-shrink ids q (remove_file removable (blob_path db id) disk) content h)

-- The chunks that a delete leaves are not of the entries that went.
kept-other :
    (p : Bytes × Bytes → Bool) (t : Tables) (c : ChunkRow)
    → not (
        any (λ e. same_pair (chunk_pair c) (entry_pair e)) (keep (λ e. p (entry_pair e)) t.entries))
      ≡ true
    → any (λ e. same_pair (chunk_pair c) (entry_pair e)) t.entries ≡ true
    → p (chunk_pair c) ≡ false
kept-other p t c kept parent = elim (Bool-cases (p (chunk_pair c))) [
  | inr e ↦ e
  | inl e ↦
      let gone : any (λ e. same_pair (chunk_pair c) (entry_pair e))
            (keep (λ e. p (entry_pair e)) t.entries)
          ≡ true =
        any-keep _ (λ (e : EntryRow). p (entry_pair e)) t.entries
          (λ x s. ap p (sym (is_yes→ (dec_pair (chunk_pair c) (entry_pair x)) s)) ∙ e)
        ∙ parent in
      ground arith
]

All-ids :
    (P : Bytes → Type 0) (p : ChunkRow → Bool) (cs : List ChunkRow)
    → All (λ c. P c.blob_id) (keep p cs)
    → All P (map (λ (c : ChunkRow). c.blob_id) (keep p cs))
All-ids P p cs h = go (keep p cs) h
  where
    go :
        (ds : List ChunkRow)
        → All (λ c. P c.blob_id) ds
        → All P (map (λ (c : ChunkRow). c.blob_id) ds)
    go [] h = tt
    go (d ∷ ds) h = (h.0, go ds h.1)

module _ (db : VmIoDb) (sound : IsSound db) (removable : FilePath → Bool) (p : Bytes × Bytes → Bool)
    (s : Store) (c : IsConsistent db s) where
  -- A chunk of another entry lies at the place of none of the blobs that go.
  pub other_entry_apart :
      (id : ChunkId)
      → IsMachine id
      → p (id.class, id.key) ≡ false
      → All (λ gone. path_of db id ≢ blob_path db gone) (select_blob_ids p s.tables)
  other_entry_apart id fits other = All-ids _ _ s.tables.chunks (
      All-keep_map _ _ _ s.tables.chunks
        (λ d passed e place.
          let is_d : path_of db id ≡ path_of db (id_of d) = place ∙ ap (blob_path db) e.blob_is in
          let same = path_of_injective db sound id (id_of d) fits e.fits is_d in
          let pairs : p (id.class, id.key) ≡ p (chunk_pair d) =
            ap (λ (i : ChunkId). p (i.class, i.key)) same in
          cc)
        c.backed)

  -- The entries that pass the test go with their chunks and, as far as removals work, their blobs.
  pub deleted-IsConsistent : IsConsistent db (record {
    tables = (delete_entries p s.tables).1;
    disk = remove_blobs db removable (select_blob_ids p s.tables) s.disk;
  })
  unfolding delete_entries
  deleted-IsConsistent = record {
    tables = delete_entries-IsWellFormed s.tables c.tables p;
    backed =
        All-keep_map _ _ _ s.tables.chunks
          (λ r kept b.
            Backed-frame db s.disk _ r
              (remove_blobs_ne db removable (select_blob_ids p s.tables) (path_of db (id_of r))
                s.disk (other_entry_apart (id_of r) b.0.fits (kept-other p s.tables r kept b.1)))
              b.0)
          (All-both _ _ s.tables.chunks c.backed c.tables.parents);
    intact =
        IsIntact-shrink db s.disk _
          (λ q content.
            remove_blobs-shrink db removable (select_blob_ids p s.tables) q s.disk content)
          c.intact;
  }
