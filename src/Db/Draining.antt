-- ===== src/Db/Draining.antt =====
-- The loop of `prune_backlog` of rs/v-m-io-db/src/lib.rs: how it ends, and what it leaves.
use v_m_io.Common.{
  ℕ, ◌<◌, ◌≡◌, ◌≢◌, refl, ◌∙◌, Bool, true, none, some, List, [], ◌∷◌, arith, length, ltb, ltb→lt,
  All, Bool-cases, inl, inr,
}
use v_m_io.Common.Bytes.{Bytes}
use v_m_io.Common.Int.{ℤ, pos}
use v_m_io.Io.{Result, ok, ◌>>=◌}
use v_m_io.Sql.Tables.{Tables, IsWellFormed}
use v_m_io.Sql.Statements.{delete_entries, expired_batch, in_batch, select_blob_ids}
use v_m_io.Sql.Methods.{Engine, Call, begin, query, execute, commit, called, transact}
use v_m_io.Sql.Methods as Sql
use v_m_io.Sql.Transact.{transact-bind}
use v_m_io.Sql.WellFormed.{delete_entries-IsWellFormed}
use v_m_io.Sql.Pruning.{delete_entries-length, expired_of, live_of, pruned_entries}
use v_m_io.Db.Store.{VmIoDb, Store, remove_blobs}
use v_m_io.Db.Prune.{
  PruneRound, PruneEnd, done, cut, prune_batch, after_prune, prune_round, prune_backlog,
}

module _ (db : VmIoDb) (r : PruneRound) (s : Store) (rest : Store → PruneEnd × Store) where
  -- A full batch leaves fewer entries.
  after_prune-ends :
      (now : ℤ)
      → ((s' : Store) → length s'.tables.entries < length s.tables.entries → (rest s').0 ≢ cut)
      → (after_prune db r.removable s
          (Sql.prune_expired r.engine now (pos prune_batch) s.tables)
          rest).0
        ≢ cut
  unfolding Sql.prune_expired
  after_prune-ends now ends = bind (called r.engine begin) _ (λ _ _.
      bind (called r.engine query) _ (λ _ _.
        bind (called r.engine execute) _ (λ _ _. bind (called r.engine commit) _ (λ _ _. pruned))))
    where
      p : Bytes × Bytes → Bool
      p = in_batch (expired_batch now (pos prune_batch) s.tables)

      pruned :
          (after_prune db r.removable s
            (
              ok ((delete_entries p s.tables).0, select_blob_ids p s.tables),
              (delete_entries p s.tables).1,
            )
            rest).0
          ≢ cut
      pruned = elim (Bool-cases (ltb (delete_entries p s.tables).0 prune_batch)) [
        | inl few ↦ rw (few, after_prune) (λ e. cc)
        | inr full ↦
            rw (full, after_prune) (ends _ (ground (arith, delete_entries-length p s.tables)))
      ]

      bind :
          (m : Result (Unit {0})) (f : Unit {0} → Result ((ℕ × List Bytes) × Tables))
          → ((a : Unit {0})
              → m ≡ ok a
              → (after_prune db r.removable s (transact s.tables (f a)) rest).0 ≢ cut)
          → (after_prune db r.removable s (transact s.tables (m >>= f)) rest).0 ≢ cut
      bind =
          transact-bind
            (λ (x : Result (ℕ × List Bytes) × Tables).
              (after_prune db r.removable s x rest).0 ≢ cut)
            s.tables (λ e k. cc)

-- With more rounds than entries it is never for the rounds that prune_backlog stops, whatever the
-- clock, the engine and the file system answer.
pub prune_backlog_ends :
    (db : VmIoDb) (rounds : List PruneRound) (s : Store)
    → length s.tables.entries < length rounds
    → (prune_backlog db rounds s).0 ≢ cut
unfolding prune_backlog
prune_backlog_ends db [] s h = absurd (omega arith)
prune_backlog_ends db (r ∷ rounds) s h =
    elim r.now_micros as (λ now. (prune_round db r now s (prune_backlog db rounds)).0 ≢ cut) [
      | none ↦ (λ e. cc)
      | some now ↦
          after_prune-ends db r s (prune_backlog db rounds) now
            (λ s' fewer. prune_backlog_ends db rounds s' (omega arith))
    ]

-- A round whose clock stands at `now` and whose calls into the engine work.
pub record Works (now : ℤ) (r : PruneRound) : Type 0 where
  pub clock : r.now_micros ≡ some now
  pub engine : (call : Call) → r.engine call ≡ true

-- No entry is left that had expired, and the others are as they were.
pub record Drained (now : ℤ) (t t' : Tables) : Type 0 where
  pub none_expired : expired_of now t' ≡ []
  pub others : live_of now t' ≡ live_of now t

empty_of_length : {A : Type 0} (xs : List A) → length xs ≡ 0 → xs ≡ []
empty_of_length [] h = refl
empty_of_length (x ∷ xs) h = absurd (omega arith)

prune_expired-works :
    (engine : Engine) (now : ℤ) (t : Tables)
    → ((call : Call) → engine call ≡ true)
    → (let p = in_batch (expired_batch now (pos prune_batch) t) in
        Sql.prune_expired engine now (pos prune_batch) t
        ≡ (ok ((delete_entries p t).0, select_blob_ids p t), (delete_entries p t).1))
unfolding Sql.prune_expired
prune_expired-works engine now t h = rw (h begin, h query, h execute, h commit)

-- With well-formed tables, more rounds than entries, a clock that stands still and an engine that
-- works, prune_backlog runs to its end, no entry is left that had expired by then, and the others
-- are as they were.
pub prune_backlog_drains :
    (db : VmIoDb) (now : ℤ) (rounds : List PruneRound) (s : Store)
    → length s.tables.entries < length rounds
    → All (Works now) rounds
    → IsWellFormed s.tables
    → ((prune_backlog db rounds s).0 ≡ done)
      × Drained now s.tables (prune_backlog db rounds s).1.tables
unfolding prune_backlog
prune_backlog_drains db now [] s h works w = absurd (omega arith)
prune_backlog_drains db now (r ∷ rounds) s h works w =
    let p = in_batch (expired_batch now (pos prune_batch) s.tables) in
    let t' = (delete_entries p s.tables).1 in
    let s' : Store = record {
      tables = t';
      disk = remove_blobs db r.removable (select_blob_ids p s.tables) s.disk;
    } in
    let (count, left, kept) = pruned_entries now prune_batch s.tables w in
    rw works.0.clock (
      rw (prune_expired-works r.engine now s.tables works.0.engine, after_prune)
        (elim (Bool-cases (ltb (delete_entries p s.tables).0 prune_batch)) [
          | inl few ↦ rw few (
            refl,
            record {
              none_expired = empty_of_length _ (omega (arith, ltb→lt _ _ few));
              others = kept;
            },
          )
          | inr full ↦
              let fewer : length t'.entries < length s.tables.entries =
                ground (arith, delete_entries-length p s.tables) in
              let (ends, d) =
                prune_backlog_drains db now rounds s' (omega arith) works.1
                  (delete_entries-IsWellFormed s.tables w p) in
              rw full (ends, record { none_expired = d.none_expired; others = d.others ∙ kept })
        ]))
