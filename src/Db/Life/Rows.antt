-- ===== src/Db/Life/Rows.antt =====
-- Properties of the rows that `upsert` and `upsert_chunk` of rs/v-m-io-db/src/lib.rs make, over
-- the life of a store whose files may be changed.
use v_m_io.Common.{
  ℕ, ◌≡◌, refl, sym, subst, Bool, Option, none, some, List, [], ◌∷◌, arith, ltb, Bool-cases, inl,
  inr,
}
use v_m_io.Common.Bytes.{Bytes}
use v_m_io.Common.Int.{ℤ, pos}
use v_m_io.Io.{Result, ok, err}
use v_m_io.Blob.Layout.{FilePath}
use v_m_io.Blob.Disk.{Disk}
use v_m_io.Sql.Tables.{EntryRow, ChunkRow, Tables}
use v_m_io.Sql.Methods.{Engine}
use v_m_io.Sql.Methods as Sql
use v_m_io.Sql.Rows.{Rows, upsert-Rows, upsert_chunk-Rows, rm-Rows, prune_expired-Rows}
use v_m_io.Db.Store.{VmIoDb, Store, check_lengths, or_else, with_tables, upsert, after_rm, rm}
use v_m_io.Db.Chunks.{
  ChunkEnv, chunk_id, chunk_row, check_size, settle, commit_chunk, store_chunk, upsert_chunk,
}
use v_m_io.Db.Prune.{PruneRound, PruneEnd, prune_batch, after_prune, prune_round, prune_backlog}
use v_m_io.Db.Tasks.{prune_task, CleanupPass, cleanup_pass, cleanup_task}
use v_m_io.Db.Life.{
  empty_store, cut_chunk, Step, upserted, chunk_upserted, chunk_cut, removed, pruned, cleaned,
  Reached, created, then_step,
}

-- What an empty store becomes if its files may also be changed at any time, by anyone.
pub data Disturbed (db : VmIoDb) : Store → Type 0 where
  created_empty : Disturbed db empty_store
  stepped : {s s' : Store} → Disturbed db s → Step db s s' → Disturbed db s'
  tampered : {s : Store} (disk : Disk) → Disturbed db s → Disturbed db (record s { disk = disk })

-- The undisturbed are among them.
pub Reached-Disturbed : (db : VmIoDb) {s : Store} → Reached db s → Disturbed db s
Reached-Disturbed db created = created_empty
Reached-Disturbed db (then_step r step) = stepped (Reached-Disturbed db r) step

module _ (db : VmIoDb) (P : EntryRow → Type 0) (Q : ChunkRow → Type 0) where
  settle-tables :
      (env : ChunkEnv) (wrote : Bool) (path : FilePath) (disk : Disk)
      (r : Result (Option Bytes) × Tables)
      → (settle db env wrote path disk r).1.tables ≡ r.1
  unfolding settle
  settle-tables env wrote path disk (ok none, t) = refl
  settle-tables env wrote path disk (ok (some prev), t) = refl
  settle-tables env wrote path disk (err e, t) = refl

  pub commit_chunk-Rows :
      (env : ChunkEnv) (row : ChunkRow) (path : FilePath) (t : Tables)
      (placed : Bool × (Result (Unit {0}) × Disk))
      → Q row
      → Rows P Q t
      → Rows P Q (commit_chunk db env row path t placed).1.tables
  unfolding commit_chunk
  commit_chunk-Rows env row path t (wrote, (err e, disk)) b h = h
  commit_chunk-Rows env row path t (wrote, (ok u, disk)) b h =
      subst (Rows P Q) (sym (settle-tables env wrote path disk _))
        (upsert_chunk-Rows P Q env.engine t h row b)

module _ (db : VmIoDb) (P : EntryRow → Type 0) (Q : ChunkRow → Type 0)
    (made_entry : (row : EntryRow) → check_lengths row.class row.key row.metadata ≡ ok tt → P row)
    (made_chunk : (class key : Bytes) (idx : ℤ) (is_final : Bool) (plain : Bytes)
      → check_size is_final plain ≡ ok tt
      → Q (chunk_row db (chunk_id db class key idx is_final plain) plain)) where
  abbrev Kept : Store → Type 0
  Kept s = Rows P Q s.tables

  upsert-Kept :
      (engine : Engine) (class key : Bytes) (m : ℤ) (x : Option ℤ) (metadata : Option Bytes)
      (s : Store)
      → Kept s
      → Kept (upsert engine class key m x metadata s).1
  unfolding upsert
  upsert-Kept engine class key m x metadata s h =
      let row : EntryRow = record {
        class = class;
        key = key;
        modified_at_micros = m;
        expires_at_micros = x;
        metadata = metadata;
      } in
      elim (check_lengths class key metadata)
          as (λ r.
            check_lengths class key metadata ≡ r
            → Kept (or_else s r (with_tables s (Sql.upsert engine row s.tables))).1) [
              | ok u ↦ λ e. upsert-Rows P Q engine s.tables h row (made_entry row e)
              | err x ↦ λ e. h
            ]
        refl

  rm-Kept :
      (engine : Engine) (removable : FilePath → Bool) (class key : Bytes) (s : Store)
      → Kept s
      → Kept (rm db engine removable class key s).1
  unfolding rm
  rm-Kept engine removable class key s h =
      subst (Rows P Q) (sym (after_rm-tables (Sql.rm engine (class, key) s.tables)))
        (rm-Rows P Q engine s.tables h (class, key))
    where
      after_rm-tables :
          (r : Result (List Bytes) × Tables) → (after_rm db removable s r).1.tables ≡ r.1
      after_rm-tables (ok ids, t) = refl
      after_rm-tables (err e, t) = refl

  after_prune-Kept :
      (removable : FilePath → Bool) (s : Store) (r : Result (ℕ × List Bytes) × Tables)
      (rest : Store → PruneEnd × Store)
      → Rows P Q r.1
      → ((s' : Store) → Kept s' → Kept (rest s').1)
      → Kept (after_prune db removable s r rest).1
  after_prune-Kept removable s (err e, t) rest h k = h
  after_prune-Kept removable s (ok (count, ids), t) rest h k =
      elim (Bool-cases (ltb count prune_batch)) [
        | inl e ↦ rw (e, after_prune) h
        | inr e ↦ rw (e, after_prune) (k _ h)
      ]

  prune_backlog-Kept :
      (rounds : List PruneRound) (s : Store) → Kept s → Kept (prune_backlog db rounds s).1
  unfolding prune_backlog
  prune_backlog-Kept [] s h = h
  prune_backlog-Kept (r ∷ rounds) s h =
      elim r.now_micros as (λ now. Kept (prune_round db r now s (prune_backlog db rounds)).1) [
        | none ↦ h
        | some now ↦
            after_prune-Kept r.removable s
              (Sql.prune_expired r.engine now (pos prune_batch) s.tables) (prune_backlog db rounds)
              (prune_expired-Rows P Q r.engine s.tables h now (pos prune_batch))
              (prune_backlog-Kept rounds)
      ]

  prune_task-Kept :
      (passes : List (List PruneRound)) (s : Store) → Kept s → Kept (prune_task db passes s)
  unfolding prune_task
  prune_task-Kept [] s h = h
  prune_task-Kept (rounds ∷ passes) s h = prune_task-Kept passes _ (prune_backlog-Kept rounds s h)

  cleanup_pass-tables : (p : CleanupPass) (s : Store) → (cleanup_pass db p s).tables ≡ s.tables
  unfolding cleanup_pass
  cleanup_pass-tables p s = ground arith

  cleanup_task-Kept :
      (passes : List CleanupPass) (s : Store) → Kept s → Kept (cleanup_task db passes s)
  unfolding cleanup_task
  cleanup_task-Kept [] s h = h
  cleanup_task-Kept (p ∷ passes) s h =
      cleanup_task-Kept passes _ (subst (Rows P Q) (sym (cleanup_pass-tables p s)) h)

  upsert_chunk-Kept :
      (env : ChunkEnv) (class key : Bytes) (idx : ℤ) (plain : Bytes) (is_final : Bool) (s : Store)
      → Kept s
      → Kept (upsert_chunk db env class key idx plain is_final s).1
  unfolding upsert_chunk store_chunk
  upsert_chunk-Kept env class key idx plain is_final s h =
      let id = chunk_id db class key idx is_final plain in
      elim (check_size is_final plain)
          as (λ r.
            check_size is_final plain ≡ r → Kept (or_else s r (store_chunk db env id plain s)).1) [
              | ok u ↦ λ e.
                  commit_chunk-Rows db P Q env (chunk_row db id plain) _ s.tables _
                    (made_chunk class key idx is_final plain e) h
              | err x ↦ λ e. h
            ]
        refl

  Step-Kept : {s s' : Store} → Step db s s' → Kept s → Kept s'
  unfolding cut_chunk
  Step-Kept (upserted engine class key m x metadata s) h =
      upsert-Kept engine class key m x metadata s h
  Step-Kept (chunk_upserted env c s stat) h =
      upsert_chunk-Kept env c.class c.key c.idx c.plain c.is_final s h
  Step-Kept (chunk_cut env c s stat size) h = h
  Step-Kept (removed engine removable class key s) h = rm-Kept engine removable class key s h
  Step-Kept (pruned passes s) h = prune_task-Kept passes s h
  Step-Kept (cleaned passes s) h = cleanup_task-Kept passes s h

  pub Disturbed-Rows : {s : Store} → Disturbed db s → Rows P Q s.tables
  Disturbed-Rows created_empty = (tt, tt)
  Disturbed-Rows (stepped d step) = Step-Kept step (Disturbed-Rows d)
  Disturbed-Rows (tampered disk d) = Disturbed-Rows d
