-- ===== src/Db/Consistent/Tasks.antt =====
-- `upsert`, `rm` and `prune_backlog` of rs/v-m-io-db/src/lib.rs, and the tie between tables and
-- files.
use v_m_io.Common.{
  ℕ, ◌≡◌, refl, sym, subst, Bool, Option, none, some, List, [], ◌∷◌, All, Bool-cases, inl, inr, ltb,
}
use v_m_io.Common.Bytes.{Bytes}
use v_m_io.Common.Int.{ℤ, pos}
use v_m_io.Io.{Result, ok, err, ◌>>=◌}
use v_m_io.Blob.Layout.{FilePath}
use v_m_io.Sql.Tables.{Tables, EntryRow, IsWellFormed, same_pair}
use v_m_io.Sql.Statements.{upsert_entry, expired_batch, in_batch}
use v_m_io.Sql.Methods.{Engine, called, satisfied, transact, begin, query, execute, commit}
use v_m_io.Sql.Methods as Sql
use v_m_io.Sql.Transact.{transact-bind}
use v_m_io.Sql.WellFormed.{upsert-IsWellFormed}
use v_m_io.Db.Store.{
  VmIoDb, Store, check_lengths, or_else, with_tables, upsert, after_rm, rm, remove_blobs,
}
use v_m_io.Db.Prune.{PruneRound, PruneEnd, prune_batch, after_prune, prune_round, prune_backlog}
use v_m_io.Db.Consistent.{IsSound, IsConsistent, Backed}
use v_m_io.Db.Consistent.Removal.{deleted-IsConsistent}

-- An upsert of an entry leaves the chunks alone.
pub chunks-upsert :
    (engine : Engine) (row : EntryRow) (t : Tables) → (Sql.upsert engine row t).1.chunks ≡ t.chunks
unfolding Sql.upsert
chunks-upsert engine row t =
    transact-bind (λ (r : Result Bool × Tables). r.1.chunks ≡ t.chunks) t (λ e. refl)
      (called engine execute) _
      (λ _ _.
        transact-bind (λ (r : Result Bool × Tables). r.1.chunks ≡ t.chunks) t (λ e. refl)
          (satisfied (upsert_entry row t.entries)) _ (λ _ _. refl))

module _ (db : VmIoDb) (s : Store) (c : IsConsistent db s) where
  with_tables-IsConsistent :
      {A : Type 0} (r : Result A × Tables)
      → IsWellFormed r.1
      → r.1.chunks ≡ s.tables.chunks
      → IsConsistent db (with_tables s r).1
  with_tables-IsConsistent (r, t) w e = record {
    tables = w;
    backed = subst (All (Backed db s.disk)) (sym e) c.backed;
    intact = c.intact;
  }

  pub upsert-IsConsistent :
      (engine : Engine) (class key : Bytes) (modified_at_micros : ℤ) (expires_at_micros : Option ℤ)
      (metadata : Option Bytes)
      → IsConsistent db (upsert engine class key modified_at_micros expires_at_micros metadata s).1
  unfolding upsert
  upsert-IsConsistent engine class key m x metadata = go (check_lengths class key metadata)
    where
      row : EntryRow
      row = record {
        class = class;
        key = key;
        modified_at_micros = m;
        expires_at_micros = x;
        metadata = metadata;
      }

      go :
          (r : Result (Unit {0}))
          → IsConsistent db (or_else s r (with_tables s (Sql.upsert engine row s.tables))).1
      go (ok u) =
          with_tables-IsConsistent (Sql.upsert engine row s.tables)
            (upsert-IsWellFormed engine s.tables c.tables row) (chunks-upsert engine row s.tables)
      go (err e) = c

module _ (db : VmIoDb) (sound : IsSound db) where
  -- With sound crates, rm keeps the store consistent, whichever removals of files work and
  -- whichever calls of the engine fail.
  pub rm-IsConsistent :
      (engine : Engine) (removable : FilePath → Bool) (class key : Bytes) (s : Store)
      → IsConsistent db s
      → IsConsistent db (rm db engine removable class key s).1
  unfolding rm Sql.rm
  rm-IsConsistent engine removable class key s c = bind (called engine begin) _ (λ _ _.
      bind (called engine query) _ (λ _ _. bind (called engine execute) _ (λ _ _.
        bind (called engine commit) _
          (λ _ _. deleted-IsConsistent db sound removable (same_pair (class, key)) s c))))
    where
      bind :
          (m : Result (Unit {0})) (f : Unit {0} → Result (List Bytes × Tables))
          → ((a : Unit {0})
              → m ≡ ok a
              → IsConsistent db (after_rm db removable s (transact s.tables (f a))).1)
          → IsConsistent db (after_rm db removable s (transact s.tables (m >>= f))).1
      bind =
          transact-bind
            (λ (r : Result (List Bytes) × Tables). IsConsistent db (after_rm db removable s r).1)
            s.tables (λ e. c)

  module _ (removable : FilePath → Bool) (s : Store) (rest : Store → PruneEnd × Store) where
    pruned-IsConsistent :
        (count : ℕ) (ids : List Bytes) (t : Tables)
        → (let s' : Store = record { tables = t; disk = remove_blobs db removable ids s.disk } in
            IsConsistent db s')
        → ((s' : Store) → IsConsistent db s' → IsConsistent db (rest s').1)
        → IsConsistent db (after_prune db removable s (ok (count, ids), t) rest).1
    pruned-IsConsistent count ids t c keeps = elim (Bool-cases (ltb count prune_batch)) [
      | inl e ↦ rw (e, after_prune) c
      | inr e ↦ rw (e, after_prune) (keeps _ c)
    ]

  prune_round-IsConsistent :
      (r : PruneRound) (now : ℤ) (s : Store) (rest : Store → PruneEnd × Store)
      → IsConsistent db s
      → ((s' : Store) → IsConsistent db s' → IsConsistent db (rest s').1)
      → IsConsistent db (prune_round db r (some now) s rest).1
  unfolding Sql.prune_expired
  prune_round-IsConsistent r now s rest c keeps = bind (called r.engine begin) _ (λ _ _.
      bind (called r.engine query) _ (λ _ _. bind (called r.engine execute) _ (λ _ _.
        bind (called r.engine commit) _ (λ _ _.
          pruned-IsConsistent r.removable s rest _ _ _
            (deleted-IsConsistent db sound r.removable
              (in_batch (expired_batch now (pos prune_batch) s.tables)) s c)
            keeps))))
    where
      bind :
          (m : Result (Unit {0})) (f : Unit {0} → Result ((ℕ × List Bytes) × Tables))
          → ((a : Unit {0})
              → m ≡ ok a
              → IsConsistent db (after_prune db r.removable s (transact s.tables (f a)) rest).1)
          → IsConsistent db (after_prune db r.removable s (transact s.tables (m >>= f)) rest).1
      bind =
          transact-bind
            (λ (x : Result (ℕ × List Bytes) × Tables).
              IsConsistent db (after_prune db r.removable s x rest).1)
            s.tables (λ e. c)

  -- With sound crates, prune_backlog keeps the store consistent, in any number of rounds, whatever
  -- the clock, the engine and the removals answer.
  pub prune_backlog-IsConsistent :
      (rounds : List PruneRound) (s : Store)
      → IsConsistent db s
      → IsConsistent db (prune_backlog db rounds s).1
  unfolding prune_backlog
  prune_backlog-IsConsistent [] s c = c
  prune_backlog-IsConsistent (r ∷ rounds) s c =
      elim r.now_micros
        as (λ now. IsConsistent db (prune_round db r now s (prune_backlog db rounds)).1) [
          | none ↦ c
          | some now ↦
              prune_round-IsConsistent r now s (prune_backlog db rounds) c
                (prune_backlog-IsConsistent rounds)
        ]
