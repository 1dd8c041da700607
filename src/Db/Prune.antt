-- ===== src/Db/Prune.antt =====
-- `prune_backlog` and `cleanup_dir` of rs/v-m-io-db/src/lib.rs, the work of the two background
-- tasks; their sleep loops only repeat it.
use v_m_io.Common.{
  ℕ, ◌+◌, Bool, true, false, not, ◌&&◌, Option, none, some, List, [], ◌∷◌, ◌++◌, leb, ltb, ◌==◌,
  if◌then◌else◌, is_yes,
}
use v_m_io.Common.Bytes.{Bytes, dec_path}
use v_m_io.Common.Int.{ℤ, pos}
use v_m_io.Io.{Result, ok, err, file_system}
use v_m_io.Blob.Layout.{FilePath, shard_depth, is_shard_name, parse_name}
use v_m_io.Blob.Disk.{Disk}
use v_m_io.Sql.Tables.{Tables}
use v_m_io.Sql.Methods.{Engine}
use v_m_io.Sql.Methods as Sql
use v_m_io.Db.Store.{VmIoDb, Store, blob_path, remove_file, remove_blobs}

-- `PRUNE_BATCH`
abbrev pub prune_batch : ℕ
prune_batch = 256

-- What one round of the loop is answered: the clock (none where it is before the epoch), the
-- engine, and which removals work.
pub record PruneRound : Type 0 where
  pub now_micros : Option ℤ
  pub engine : Engine
  pub removable : FilePath → Bool

-- How the loop ended; `cut` stands for a list of rounds that was too short.
pub data PruneEnd : Type 0 where
  done : PruneEnd
  failed : PruneEnd
  cut : PruneEnd

abbrev pub after_prune :
    VmIoDb
    → (FilePath → Bool)
    → Store
    → Result (ℕ × List Bytes) × Tables
    → (Store → PruneEnd × Store)
    → PruneEnd × Store
after_prune db removable s (err e, t) rest = (failed, record s { tables = t })
after_prune db removable s (ok (count, ids), t) rest =
    let s' : Store = record { tables = t; disk = remove_blobs db removable ids s.disk } in
    elim (ltb count prune_batch) [ true ↦ (done, s') | false ↦ rest s' ]

abbrev pub prune_round :
    VmIoDb → PruneRound → Option ℤ → Store → (Store → PruneEnd × Store) → PruneEnd × Store
prune_round db r none s rest = (done, s)
prune_round db r (some now) s rest =
    after_prune db r.removable s (Sql.prune_expired r.engine now (pos prune_batch) s.tables) rest

-- `prune_backlog`
unfoldable pub prune_backlog : VmIoDb → List PruneRound → Store → PruneEnd × Store
prune_backlog db [] s = (cut, s)
prune_backlog db (r ∷ rounds) s = prune_round db r r.now_micros s (prune_backlog db rounds)

-- What `read_dir` lists: each item with its name (none where it is no text), what `metadata` says
-- of it, and for a directory what its own `read_dir` would list. `stale` says that it was last
-- modified at or before the cutoff.
mutual
  pub data Item : Type 0 where
    unreadable : Item
    file : Option Bytes → Bool → Item
    dir : Option Bytes → Bool → Listing → Item

  -- A listing may end in an error of `read_dir` or `next_entry`.
  pub data Listing : Type 0 where
    end : Listing
    broken : Listing
    item : Item → Listing → Listing

-- The file case of `cleanup_dir`, in the directory `here`: the file goes if it is stale, has the
-- name and the place of a blob, and no row refers to it.
abbrev pub reap :
    VmIoDb → (FilePath → Bool) → FilePath → Result Bool → Disk → Result (Unit {0}) × Disk
reap db removable path (err e) disk = (err e, disk)
reap db removable path (ok true) disk = (ok tt, disk)
reap db removable path (ok false) disk = (ok tt, remove_file removable path disk)

abbrev pub cleanup_blob :
    VmIoDb
    → Engine
    → (FilePath → Bool)
    → Tables
    → FilePath
    → Option Bytes
    → Disk
    → Result (Unit {0}) × Disk
cleanup_blob db engine removable t path none disk = (ok tt, disk)
cleanup_blob db engine removable t path (some id) disk =
    if is_yes (dec_path (blob_path db id) path)
    then reap db removable path (Sql.blob_id_exists engine id t) disk
    else (ok tt, disk)

abbrev pub cleanup_file :
    VmIoDb
    → Engine
    → (FilePath → Bool)
    → Tables
    → FilePath
    → ℕ
    → Option Bytes
    → Bool
    → Disk
    → Result (Unit {0}) × Disk
cleanup_file db engine removable t here depth none stale disk = (ok tt, disk)
cleanup_file db engine removable t here depth (some name) stale disk =
    if (depth == shard_depth) && stale
    then cleanup_blob db engine removable t (here ++ (name ∷ [])) (parse_name db.hex name) disk
    else (ok tt, disk)

-- Go on with the listing unless an error ended the pass.
abbrev pub and_then :
    Result (Unit {0}) × Disk → (Disk → Result (Unit {0}) × Disk) → Result (Unit {0}) × Disk
and_then (ok u, disk) rest = rest disk
and_then (err e, disk) rest = (err e, disk)

-- Is this a directory that the walk enters?
abbrev pub enters : ℕ → Bytes → Bool
enters depth name = not (leb shard_depth depth) && is_shard_name name

-- `cleanup_dir`. Empty shard directories are removed too; a directory holds no file by then, so
-- that shows only in later listings. The tables are those of the moment: no row comes or goes
-- during the pass.
module _ (db : VmIoDb) (engine : Engine) (removable : FilePath → Bool) (t : Tables) where
  unfoldable mutual
    pub cleanup_item : Item → FilePath → ℕ → Disk → Result (Unit {0}) × Disk
    cleanup_item unreadable here depth disk = (ok tt, disk)
    cleanup_item (file name stale) here depth disk =
        cleanup_file db engine removable t here depth name stale disk
    cleanup_item (dir none stale listing) here depth disk = (ok tt, disk)
    cleanup_item (dir (some name) stale listing) here depth disk =
        let inside = cleanup_dir listing (here ++ (name ∷ [])) (depth + 1) disk in
        if enters depth name then inside else (ok tt, disk)

    pub cleanup_dir : Listing → FilePath → ℕ → Disk → Result (Unit {0}) × Disk
    cleanup_dir end here depth disk = (ok tt, disk)
    cleanup_dir broken here depth disk = (err file_system, disk)
    cleanup_dir (item i listing) here depth disk =
        and_then (cleanup_item i here depth disk) (cleanup_dir listing here depth)
