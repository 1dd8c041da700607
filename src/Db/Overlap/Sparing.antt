-- ===== src/Db/Overlap/Sparing.antt =====
-- `cleanup_dir` of rs/v-m-io-db/src/lib.rs and the files that are not stale.
use v_m_io.Common.{
  ℕ, ◌+◌, ◌≡◌, ◌≢◌, refl, ◌∙◌, Bool, true, false, ◌&&◌, Option, none, some, [], ◌∷◌, ◌++◌, arith,
  Bool-cases, inl, inr, is_yes, is_no→, ◌==◌, not,
}
use v_m_io.Common.Bytes.{Bytes, dec_path}
use v_m_io.Io.{Result, ok, err}
use v_m_io.Blob.Layout.{FilePath, parse_name, shard_depth}
use v_m_io.Blob.Disk.{Disk}
use v_m_io.Sql.Tables.{Tables}
use v_m_io.Sql.Methods.{Engine}
use v_m_io.Sql.Methods as Sql
use v_m_io.Db.Store.{VmIoDb, Store, blob_path}
use v_m_io.Db.Prune.{
  Item, unreadable, file, dir, Listing, end, broken, item, reap, cleanup_blob, cleanup_file,
  and_then, enters, cleanup_item, cleanup_dir,
}
use v_m_io.Db.Tasks.{CleanupPass, cleanup_pass}
use v_m_io.Db.Consistent.Settle.{remove_file_ne}
use v_m_io.Db.Overlap.{Upload, spares, spares_item}
use v_m_io.Db.Overlap.Uploads.{Held, upload_path}

module _ (db : VmIoDb) (engine : Engine) (removable : FilePath → Bool) (t : Tables)
    (q : FilePath) where
  reap_elsewhere :
      (path : FilePath) (r : Result Bool) (disk : Disk)
      → q ≢ path
      → (reap db removable path r disk).1 q ≡ disk q
  reap_elsewhere path (err e) disk ne = refl
  reap_elsewhere path (ok true) disk ne = refl
  reap_elsewhere path (ok false) disk ne = remove_file_ne removable path q disk ne

  cleanup_blob_elsewhere :
      (path : FilePath) (name : Option Bytes) (disk : Disk)
      → q ≢ path
      → (cleanup_blob db engine removable t path name disk).1 q ≡ disk q
  cleanup_blob_elsewhere path none disk ne = refl
  cleanup_blob_elsewhere path (some id) disk ne =
      elim (Bool-cases (is_yes (dec_path (blob_path db id) path))) [
        | inl here ↦ rw here (reap_elsewhere path (Sql.blob_id_exists engine id t) disk ne)
        | inr other ↦ rw other refl
      ]

  cleanup_file_elsewhere :
      (here : FilePath) (depth : ℕ) (name : Bytes) (stale : Bool) (disk : Disk)
      → not (stale && is_yes (dec_path q (here ++ (name ∷ [])))) ≡ true
      → (cleanup_file db engine removable t here depth (some name) stale disk).1 q ≡ disk q
  cleanup_file_elsewhere here depth name false disk h = ground arith
  cleanup_file_elsewhere here depth name true disk h = elim (Bool-cases (depth == shard_depth)) [
    | inl e ↦ rw e (
        cleanup_blob_elsewhere (here ++ (name ∷ [])) (parse_name db.hex name) disk
          (is_no→ (dec_path q (here ++ (name ∷ []))) (ground arith)))
    | inr e ↦ rw e refl
  ]

  and_then_keeps :
      (disk : Disk) (r : Result (Unit {0}) × Disk) (rest : Disk → Result (Unit {0}) × Disk)
      → r.1 q ≡ disk q
      → ((d : Disk) → (rest d).1 q ≡ d q)
      → (and_then r rest).1 q ≡ disk q
  and_then_keeps disk (ok u, d) rest h k = k d ∙ h
  and_then_keeps disk (err e, d) rest h k = h

  mutual
    unfolding cleanup_item cleanup_dir spares_item spares

    cleanup_item-spares :
        (i : Item) (here : FilePath) (depth : ℕ) (disk : Disk)
        → spares_item q i here ≡ true
        → (cleanup_item db engine removable t i here depth disk).1 q ≡ disk q
    cleanup_item-spares unreadable here depth disk h = refl
    cleanup_item-spares (file none stale) here depth disk h = refl
    cleanup_item-spares (file (some name) stale) here depth disk h =
        cleanup_file_elsewhere here depth name stale disk h
    cleanup_item-spares (dir none stale listing) here depth disk h = refl
    cleanup_item-spares (dir (some name) stale listing) here depth disk h =
        let inside = cleanup_dir-spares listing (here ++ (name ∷ [])) (depth + 1) disk h in
        elim (Bool-cases (enters depth name)) [ inl e ↦ rw e inside | inr e ↦ rw e refl ]

    cleanup_dir-spares :
        (listing : Listing) (here : FilePath) (depth : ℕ) (disk : Disk)
        → spares q listing here ≡ true
        → (cleanup_dir db engine removable t listing here depth disk).1 q ≡ disk q
    cleanup_dir-spares end here depth disk h = refl
    cleanup_dir-spares broken here depth disk h = refl
    cleanup_dir-spares (item i listing) here depth disk h =
        and_then_keeps disk (cleanup_item db engine removable t i here depth disk) _
          (cleanup_item-spares i here depth disk (ground arith))
          (λ d. cleanup_dir-spares listing here depth d (ground arith))

-- A pass that finds no stale file at the place of a call's blob leaves what the call relies on.
pub cleanup_pass-Held :
    (db : VmIoDb) (pass : CleanupPass) (s : Store) (q : Upload)
    → spares (upload_path db q.call) pass.listing db.root_dir ≡ true
    → Held db s q
    → Held db (cleanup_pass db pass s) q
unfolding cleanup_pass
cleanup_pass-Held db pass s q spared h = elim (Bool-cases pass.has_cutoff) [
  | inr e ↦ rw e h
  | inl e ↦ rw e (record {
    small = h.small;
    file = λ done.
        cleanup_dir-spares db pass.engine pass.removable s.tables (upload_path db q.call)
          pass.listing db.root_dir 0 s.disk spared
        ∙ h.file done;
    fresh = h.fresh;
  })
]
