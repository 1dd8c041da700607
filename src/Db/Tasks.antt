-- ===== src/Db/Tasks.antt =====
-- `prune_task` and `cleanup_task` of rs/v-m-io-db/src/lib.rs: a pass, a sleep, and so on. A list
-- stands for the passes until the task is aborted.
use v_m_io.Common.{Bool, List, [], ◌∷◌, if◌then◌else◌}
use v_m_io.Blob.Layout.{FilePath}
use v_m_io.Sql.Methods.{Engine}
use v_m_io.Db.Store.{VmIoDb, Store}
use v_m_io.Db.Prune.{PruneRound, prune_backlog, Listing, cleanup_dir}

-- `prune_task`: each pass, by its rounds, with its errors dropped
unfoldable pub prune_task : VmIoDb → List (List PruneRound) → Store → Store
prune_task db [] s = s
prune_task db (rounds ∷ passes) s = prune_task db passes (prune_backlog db rounds s).1

-- A pass of the cleanup: is there a cutoff (`checked_sub`), what the engine and the removals
-- answer, and what the root directory lists.
pub record CleanupPass : Type 0 where
  pub has_cutoff : Bool
  pub engine : Engine
  pub removable : FilePath → Bool
  pub listing : Listing

unfoldable pub cleanup_pass : VmIoDb → CleanupPass → Store → Store
cleanup_pass db p s =
    if p.has_cutoff
    then record s {
      disk = (cleanup_dir db p.engine p.removable s.tables p.listing db.root_dir 0 s.disk).1;
    }
    else s

-- `cleanup_task`
unfoldable pub cleanup_task : VmIoDb → List CleanupPass → Store → Store
unfolding cleanup_pass
cleanup_task db [] s = s
cleanup_task db (p ∷ passes) s = cleanup_task db passes (cleanup_pass db p s)
