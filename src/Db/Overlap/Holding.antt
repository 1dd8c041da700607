-- ===== src/Db/Overlap/Holding.antt =====
-- What a call of `upsert_chunk` of rs/v-m-io-db/src/lib.rs relies on while it is under way, over
-- the steps of other calls.
use v_m_io.Common.{
  ◌≡◌, ◌≢◌, refl, sym, ap, ◌∙◌, subst, true, Option, some, All, All-map, All-find, Bool-cases, inl,
  inr, is_yes, is_yes→, is_no→,
}
use v_m_io.Common.Bytes.{Bytes}
use v_m_io.Common.Int.{ℤ}
use v_m_io.Io.{ok, err}
use v_m_io.Blob.Cipher.{gen_id, encrypt_chunk}
use v_m_io.Sql.Tables.{EntryRow, ChunkRow, chunk_key, dec_chunk_key}
use v_m_io.Sql.Statements.{find_chunk}
use v_m_io.Sql.Methods.{Engine, working}
use v_m_io.Db.Store.{VmIoDb, Store, blob_path, upsert, check_lengths, or_else, with_tables}
use v_m_io.Sql.Methods as Sql
use v_m_io.Db.Chunks.{ChunkEnv, place_blob, check_size}
use v_m_io.Db.Consistent.{cipher_of, IsSound, IsConsistent, id_of, path_of, Backed}
use v_m_io.Db.Consistent.Place.{placed-others, placed-file, placed-fresh}
use v_m_io.Db.Consistent.Methods.{check_size-ok}
use v_m_io.Db.Consistent.Tasks.{chunks-upsert}
use v_m_io.Db.Life.{ChunkCall, id_called, cut_chunk}
use v_m_io.Db.Life.Safe.{cut_chunk-IsConsistent}
use v_m_io.Db.Overlap.{Upload, called_key, set_pending, Pending, Shared, begin_upload, end_upload}
use v_m_io.Db.Overlap.Uploads.{
  called-IsMachine, upload_path, Held, paths_apart, end_upload-others, end_upload-rows,
}

-- What is under way after a change at `k` is what the change put there, or was under way before at
-- another chunk.
pub set_pending-cases :
    (C : (Bytes × Bytes) × ℤ → Upload → Type 0) (pending : Pending) (k : (Bytes × Bytes) × ℤ)
    (new : Option Upload)
    → ((q : Upload) → new ≡ some q → C k q)
    → ((j : (Bytes × Bytes) × ℤ) (q : Upload) → j ≢ k → pending j ≡ some q → C j q)
    → (j : (Bytes × Bytes) × ℤ) (q : Upload) → set_pending pending k new j ≡ some q
    → C j q
set_pending-cases C pending k new at_k others j q h =
    elim (Bool-cases (is_yes (dec_chunk_key j k))) [
      | inl e ↦
          let same = is_yes→ (dec_chunk_key j k) e in
          let put : new ≡ some q = rw e at h in subst (λ i. C i q) (sym same) (at_k q put)
      | inr e ↦
          let kept : pending j ≡ some q = rw e at h in
          others j q (is_no→ (dec_chunk_key j k) e) kept
    ]

module _ (db : VmIoDb) (sound : IsSound db) where
  -- Calls under way at two chunks have their blobs at two places.
  uploads_apart :
      (a b : ChunkCall) → called_key a ≢ called_key b → upload_path db a ≢ upload_path db b
  uploads_apart a b =
      paths_apart db sound (id_called db a) (id_called db b) (called-IsMachine db a)
        (called-IsMachine db b)

  -- The end of one call leaves what another relies on.
  pub end_upload-Held :
      (s : Store)
      → IsConsistent db s
      → (p q : Upload) → called_key q.call ≢ called_key p.call
      → Held db s p
      → Held db s q
      → Held db (end_upload db p s).1 q
  end_upload-Held s c p q ne hp hq = record {
    small = hq.small;
    file = λ e.
        end_upload-others db sound s c p hp (upload_path db q.call) (uploads_apart q.call p.call ne)
          not_before
        ∙ hq.file e;
    fresh = λ w.
        end_upload-rows db sound s c p hp (λ r. path_of db (id_of r) ≢ upload_path db q.call)
          (uploads_apart p.call q.call (λ e. ne (sym e))) (hq.fresh w);
  }
    where
      not_before :
          (before : ChunkRow)
          → find_chunk (called_key p.call) s.tables.chunks ≡ some before
          → upload_path db q.call ≢ blob_path db before.blob_id
      not_before before present e =
          let (b, same) = All-find (Backed db s.disk) _ s.tables.chunks before c.backed present in
          let k = is_yes→ (dec_chunk_key (called_key p.call) (chunk_key before)) same in
          paths_apart db sound (id_called db q.call) (id_of before) (called-IsMachine db q.call)
            b.fits (λ eq. ne (eq ∙ sym k)) (e ∙ ap (blob_path db) b.blob_is)

  module _ (env : ChunkEnv) (call : ChunkCall) (u : Shared) (stat : env.stat_works ≡ true)
      (c : IsConsistent db u.store) where
    pub begin_upload-IsConsistent : IsConsistent db (begin_upload db env call u).store
    unfolding begin_upload cut_chunk
    begin_upload-IsConsistent = cut_chunk-IsConsistent db sound env call u.store stat c

    -- The start of a call leaves what another relies on.
    pub begin_upload-Held :
        (q : Upload)
        → called_key q.call ≢ called_key call
        → Held db u.store q
        → Held db (begin_upload db env call u).store q
    unfolding begin_upload gen_id encrypt_chunk
    begin_upload-Held q ne h = record {
      small = h.small;
      file = λ e.
          placed-others db sound env stat (id_called db call) call.plain (called-IsMachine db call)
            refl u.store.disk (upload_path db q.call) (uploads_apart q.call call ne)
          ∙ h.file e;
      fresh = h.fresh;
    }

    abbrev pub started : Upload
    started =
        let placed =
          place_blob env (upload_path db call) (cipher_of db (id_called db call) call.plain)
            u.store.disk in
        record { env = env; call = call; wrote = placed.0; placed = placed.1.0 }

    pub started-Held :
        check_size call.is_final call.plain ≡ ok tt
        → Held db (begin_upload db env call u).store started
    unfolding begin_upload gen_id encrypt_chunk
    started-Held size =
        let id = id_called db call in
        let fits = called-IsMachine db call in
        record {
          small = check_size-ok call.is_final call.plain size;
          file = λ e. placed-file db sound env stat id call.plain fits refl u.store.disk c.intact e;
          fresh = λ w.
              All-map _ _ u.store.tables.chunks
                (λ r b. placed-fresh db sound env stat id call.plain fits refl u.store.disk r b w)
                c.backed;
        }

-- An upsert of an entry touches neither files nor chunks.
pub upsert-Held :
    (db : VmIoDb) (engine : Engine) (class key : Bytes) (m : ℤ) (x : Option ℤ)
    (metadata : Option Bytes) (s : Store) (q : Upload)
    → Held db s q
    → Held db (upsert engine class key m x metadata s).1 q
unfolding upsert
upsert-Held db engine class key m x metadata s q h =
    let row : EntryRow = record {
      class = class;
      key = key;
      modified_at_micros = m;
      expires_at_micros = x;
      metadata = metadata;
    } in
    elim (check_lengths class key metadata)
      as (λ r. Held db (or_else s r (with_tables s (Sql.upsert engine row s.tables))).1 q) [
        | ok v ↦ record {
          small = h.small;
          file = h.file;
          fresh = λ w.
              subst (All (λ r. path_of db (id_of r) ≢ upload_path db q.call))
                (sym (chunks-upsert engine row s.tables)) (h.fresh w);
        }
        | err e ↦ h
      ]
