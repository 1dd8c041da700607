-- ===== src/Db/Life/Safe.antt =====
-- The tie between tables and files over the life of a store of rs/v-m-io-db/src/lib.rs.
use v_m_io.Common.{◌≡◌, refl, true, List, [], ◌∷◌, All-map, Bool-cases, inl, inr}
use v_m_io.Blob.Frame.{IsMachine}
use v_m_io.Blob.Cipher.{gen_id, encrypt_chunk}
use v_m_io.Db.Store.{VmIoDb, Store}
use v_m_io.Db.Chunks.{ChunkEnv}
use v_m_io.Db.Prune.{PruneRound}
use v_m_io.Db.Tasks.{prune_task, CleanupPass, cleanup_pass, cleanup_task}
use v_m_io.Db.Consistent.{IsSound, IsConsistent}
use v_m_io.Db.Consistent.Place.{placed-Backed, placed-IsIntact}
use v_m_io.Db.Consistent.Methods.{upsert_chunk-IsConsistent}
use v_m_io.Db.Consistent.Tasks.{upsert-IsConsistent, rm-IsConsistent, prune_backlog-IsConsistent}
use v_m_io.Db.Consistent.Cleanup.{cleanup_dir-IsConsistent}
use v_m_io.Db.Life.{
  ChunkCall, empty_store, id_called, cut_chunk, Step, upserted, chunk_upserted, chunk_cut, removed,
  pruned, cleaned, Reached, created, then_step,
}

module _ (db : VmIoDb) (sound : IsSound db) where
  prune_task-IsConsistent :
      (passes : List (List PruneRound)) (s : Store)
      → IsConsistent db s
      → IsConsistent db (prune_task db passes s)
  unfolding prune_task
  prune_task-IsConsistent [] s c = c
  prune_task-IsConsistent (rounds ∷ passes) s c =
      prune_task-IsConsistent passes _ (prune_backlog-IsConsistent db sound rounds s c)

  pub cleanup_pass-IsConsistent :
      (p : CleanupPass) (s : Store) → IsConsistent db s → IsConsistent db (cleanup_pass db p s)
  unfolding cleanup_pass
  cleanup_pass-IsConsistent p s c = elim (Bool-cases p.has_cutoff) [
    | inl e ↦
        rw e (cleanup_dir-IsConsistent db sound p.engine p.removable p.listing db.root_dir 0 s c)
    | inr e ↦ rw e c
  ]

  cleanup_task-IsConsistent :
      (passes : List CleanupPass) (s : Store)
      → IsConsistent db s
      → IsConsistent db (cleanup_task db passes s)
  unfolding cleanup_task
  cleanup_task-IsConsistent [] s c = c
  cleanup_task-IsConsistent (p ∷ passes) s c =
      cleanup_task-IsConsistent passes _ (cleanup_pass-IsConsistent p s c)

  pub cut_chunk-IsConsistent :
      (env : ChunkEnv) (call : ChunkCall) (s : Store)
      → env.stat_works ≡ true
      → IsConsistent db s
      → IsConsistent db (cut_chunk db env call s)
  unfolding cut_chunk gen_id encrypt_chunk
  cut_chunk-IsConsistent env call s stat c =
      let id = id_called db call in
      let fits : IsMachine id = record {
        class_fits = call.class_fits;
        key_fits = call.key_fits;
        idx_fits = call.idx_fits;
      } in
      record {
        tables = c.tables;
        backed =
            All-map _ _ s.tables.chunks
              (placed-Backed db sound env stat id call.plain fits refl s.disk) c.backed;
        intact = placed-IsIntact db sound env stat id call.plain fits refl s.disk c.intact;
      }

  pub Step-IsConsistent : {s s' : Store} → Step db s s' → IsConsistent db s → IsConsistent db s'
  Step-IsConsistent (upserted engine class key m x metadata s) c =
      upsert-IsConsistent db s c engine class key m x metadata
  Step-IsConsistent (chunk_upserted env call s stat) c =
      upsert_chunk-IsConsistent db sound env stat call.class call.key call.idx call.plain
        call.is_final s call.class_fits call.key_fits call.idx_fits c
  Step-IsConsistent (chunk_cut env call s stat h) c = cut_chunk-IsConsistent env call s stat c
  Step-IsConsistent (removed engine removable class key s) c =
      rm-IsConsistent db sound engine removable class key s c
  Step-IsConsistent (pruned passes s) c = prune_task-IsConsistent passes s c
  Step-IsConsistent (cleaned passes s) c = cleanup_task-IsConsistent passes s c

  pub empty_store-IsConsistent : IsConsistent db empty_store
  empty_store-IsConsistent = record {
    tables = record { entries_key = tt; modified_unique = tt; chunks_key = tt; parents = tt };
    backed = tt;
    intact = record { at_place = λ id plain content fits hash_is e l. cc };
  }

  -- With sound crates, every store that calls of the methods, passes of the background tasks and
  -- crashes in the midst of a write of a blob make of an empty one is consistent, whatever the
  -- engine, the clock and the file system answer, if metadata of blob files works.
  pub Reached-IsConsistent : {s : Store} → Reached db s → IsConsistent db s
  Reached-IsConsistent created = empty_store-IsConsistent
  Reached-IsConsistent (then_step r step) = Step-IsConsistent step (Reached-IsConsistent r)
