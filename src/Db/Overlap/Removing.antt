-- ===== src/Db/Overlap/Removing.antt =====
-- `rm` of rs/v-m-io-db/src/lib.rs while calls of `upsert_chunk` for other entries are under way.
use v_m_io.Common.{
  ◌≡◌, ◌≢◌, sym, List, ◌∙◌, Bool, false, All-keep_map, Bool-cases, inl, inr, is_yes→,
}
use v_m_io.Common.Bytes.{Bytes, dec_pair}
use v_m_io.Io.{Result, ok, ◌>>=◌}
use v_m_io.Blob.Layout.{FilePath}
use v_m_io.Sql.Tables.{Tables, same_pair}
use v_m_io.Sql.Statements.{delete_entries, select_blob_ids}
use v_m_io.Sql.Methods.{Engine, called, transact, begin, query, execute, commit}
use v_m_io.Sql.Methods as Sql
use v_m_io.Sql.Transact.{transact-bind}
use v_m_io.Db.Store.{VmIoDb, Store, after_rm, rm, remove_blobs}
use v_m_io.Db.Consistent.{IsSound, IsConsistent}
use v_m_io.Db.Consistent.Removal.{remove_blobs_ne, other_entry_apart}
use v_m_io.Db.Life.{id_called}
use v_m_io.Db.Overlap.{Upload, called_key}
use v_m_io.Db.Overlap.Uploads.{Held, upload_path, called-IsMachine}

module _ (db : VmIoDb) (sound : IsSound db) (removable : FilePath → Bool) (s : Store)
    (c : IsConsistent db s) (q : Upload) (h : Held db s q) where
  deleted-Held :
      (p : Bytes × Bytes → Bool)
      → p (q.call.class, q.call.key) ≡ false
      → Held db
          (record {
            tables = (delete_entries p s.tables).1;
            disk = remove_blobs db removable (select_blob_ids p s.tables) s.disk;
          })
          q
  unfolding delete_entries
  deleted-Held p other = record {
    small = h.small;
    file = λ e.
        remove_blobs_ne db removable (select_blob_ids p s.tables) (upload_path db q.call) s.disk (
          other_entry_apart db sound removable p s c (id_called db q.call)
            (called-IsMachine db q.call) other)
        ∙ h.file e;
    fresh = λ w. All-keep_map _ _ _ s.tables.chunks (λ r kept ne. ne) (h.fresh w);
  }

  pub rm-Held :
      (engine : Engine) (class key : Bytes)
      → (called_key q.call).0 ≢ (class, key)
      → Held db (rm db engine removable class key s).1 q
  unfolding rm Sql.rm
  rm-Held engine class key ne = bind (called engine begin) _ (λ _ _.
      bind (called engine query) _ (λ _ _. bind (called engine execute) _ (λ _ _.
        bind (called engine commit) _ (λ _ _. deleted-Held (same_pair (class, key)) other))))
    where
      other : same_pair (class, key) (q.call.class, q.call.key) ≡ false
      other = elim (Bool-cases (same_pair (class, key) (q.call.class, q.call.key))) [
        | inl e ↦ absurd (ne (sym (is_yes→ (dec_pair (class, key) (q.call.class, q.call.key)) e)))
        | inr e ↦ e
      ]

      bind :
          (m : Result (Unit {0})) (f : Unit {0} → Result (List Bytes × Tables))
          → ((a : Unit {0})
              → m ≡ ok a
              → Held db (after_rm db removable s (transact s.tables (f a))).1 q)
          → Held db (after_rm db removable s (transact s.tables (m >>= f))).1 q
      bind =
          transact-bind
            (λ (r : Result (List Bytes) × Tables). Held db (after_rm db removable s r).1 q) s.tables
            (λ e. h)
