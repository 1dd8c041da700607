-- ===== src/Db/Overlap/Safe.antt =====
-- The store of rs/v-m-io-db/src/lib.rs over the turns of overlapping calls of `upsert_chunk`.
use v_m_io.Common.{◌≡◌, refl, sym, ap, ◌∙◌, subst, true, none, some, arith}
use v_m_io.Common.Bytes.{Bytes}
use v_m_io.Common.Int.{ℤ}
use v_m_io.Io.{ok}
use v_m_io.Blob.Cipher.{gen_id, encrypt_chunk}
use v_m_io.Sql.Methods.{working}
use v_m_io.Db.Store.{VmIoDb, Store}
use v_m_io.Db.Chunks.{ChunkEnv, check_size, get_chunk, chunk_row}
use v_m_io.Db.Consistent.{IsSound, IsConsistent}
use v_m_io.Db.Consistent.Tasks.{rm-IsConsistent, upsert-IsConsistent}
use v_m_io.Db.Consistent.Reads.{get_chunk_found, commit_chunk-Found}
use v_m_io.Db.Life.{ChunkCall, id_called}
use v_m_io.Db.Life.Safe.{Step-IsConsistent, cleanup_pass-IsConsistent, empty_store-IsConsistent}
use v_m_io.Db.Overlap.{
  Upload, called_key, Shared, begin_upload, end_upload, ended_upload, Turn, begun, ended,
  entry_upserted, swept, removed_other, alone, Interleaved, idle, then_turn,
}
use v_m_io.Db.Overlap.Holding.{
  set_pending-cases, end_upload-Held, begin_upload-IsConsistent, begin_upload-Held, started,
  started-Held, upsert-Held,
}
use v_m_io.Db.Overlap.Removing.{rm-Held}
use v_m_io.Db.Overlap.Sparing.{cleanup_pass-Held}
use v_m_io.Db.Overlap.Uploads.{upload_path, Held, end_upload-IsConsistent}

-- The store is consistent, and each call under way has what it relies on.
pub record IsCalm (db : VmIoDb) (u : Shared) : Type 0 where
  pub consistent : IsConsistent db u.store
  pub held :
      (k : (Bytes × Bytes) × ℤ) (q : Upload)
      → u.pending k ≡ some q
      → (called_key q.call ≡ k) × Held db u.store q

module _ (db : VmIoDb) (sound : IsSound db) where
  begin_upload-IsCalm :
      (env : ChunkEnv) (call : ChunkCall) (u : Shared)
      → env.stat_works ≡ true
      → check_size call.is_final call.plain ≡ ok tt
      → IsCalm db u
      → IsCalm db (begin_upload db env call u)
  unfolding begin_upload gen_id encrypt_chunk
  begin_upload-IsCalm env call u stat size calm = record {
    consistent = begin_upload-IsConsistent db sound env call u stat calm.consistent;
    held =
        set_pending-cases
          (λ j q. (called_key q.call ≡ j) × Held db (begin_upload db env call u).store q) u.pending
          (called_key call) (some (started db sound env call u stat calm.consistent))
          (λ q e.
            let same : started db sound env call u stat calm.consistent ≡ q = ground arith in
            subst
              (λ p.
                (called_key p.call ≡ called_key call)
                × Held db (begin_upload db env call u).store p)
              same (refl, started-Held db sound env call u stat calm.consistent size))
          (λ j q ne e.
            let (k, h) = calm.held j q e in
            (
              k,
              begin_upload-Held db sound env call u stat calm.consistent q (λ eq. ne (sym k ∙ eq))
                  h,
            ));
  }

  ended_upload-IsCalm :
      (p : Upload) (u : Shared)
      → u.pending (called_key p.call) ≡ some p
      → IsCalm db u
      → IsCalm db (ended_upload db p u)
  ended_upload-IsCalm p u under_way calm =
      let mine = (calm.held (called_key p.call) p under_way).1 in
      record {
        consistent = end_upload-IsConsistent db sound u.store calm.consistent p mine;
        held =
            set_pending-cases
              (λ j q. (called_key q.call ≡ j) × Held db (end_upload db p u.store).1 q) u.pending
              (called_key p.call) none (λ q e. cc)
              (λ j q ne e.
                let (k, h) = calm.held j q e in
                (
                  k,
                  end_upload-Held db sound u.store calm.consistent p q (λ eq. ne (sym k ∙ eq)) mine
                      h,
                ));
      }

  Turn-IsCalm : {u u' : Shared} → Turn db u u' → IsCalm db u → IsCalm db u'
  Turn-IsCalm (begun env c u stat size free) calm = begin_upload-IsCalm env c u stat size calm
  Turn-IsCalm (ended p u under_way) calm = ended_upload-IsCalm p u under_way calm
  Turn-IsCalm (entry_upserted engine class key m x metadata u) calm = record {
    consistent = upsert-IsConsistent db u.store calm.consistent engine class key m x metadata;
    held = λ k q e.
        let (same, h) = calm.held k q e in
        (same, upsert-Held db engine class key m x metadata u.store q h);
  }
  Turn-IsCalm (swept pass u spared) calm = record {
    consistent = cleanup_pass-IsConsistent db sound pass u.store calm.consistent;
    held = λ k q e.
        let (same, h) = calm.held k q e in
        (same, cleanup_pass-Held db pass u.store q (spared k q e) h);
  }
  Turn-IsCalm (removed_other engine removable class key u others) calm = record {
    consistent = rm-IsConsistent db sound engine removable class key u.store calm.consistent;
    held = λ k q e.
        let (same, h) = calm.held k q e in
        (
          same,
          rm-Held db sound removable u.store calm.consistent q h engine class key (others k q e),
        );
  }
  Turn-IsCalm (alone s u none_pending step) calm = record {
    consistent = Step-IsConsistent db sound step calm.consistent;
    held = λ k q e. let no : none ≡ some q = sym (none_pending k) ∙ e in cc;
  }

  Interleaved-IsCalm : {u : Shared} → Interleaved db u → IsCalm db u
  Interleaved-IsCalm idle = record {
    consistent = empty_store-IsConsistent db sound;
    held = λ k q e. cc;
  }
  Interleaved-IsCalm (then_turn i turn) = Turn-IsCalm turn (Interleaved-IsCalm i)

  -- With sound crates: from an empty store on, however calls of upsert_chunk for different chunks
  -- overlap, with upserts of entries, rm of entries that none of them is for, and passes of
  -- cleanup_task that find no stale file at the place of a blob under way between their halves,
  -- and with any call, task or crash while none of them is under way, the store is consistent
  -- after every step, whatever the engine, the clock and the file system answer, if metadata of
  -- blob files works.
  pub Interleaved-IsConsistent : {u : Shared} → Interleaved db u → IsConsistent db u.store
  Interleaved-IsConsistent i = (Interleaved-IsCalm i).consistent

  end_upload-get_chunk :
      (s : Store)
      → IsConsistent db s
      → (p : Upload) → Held db s p
      → (end_upload db p s).0 ≡ ok tt
      → get_chunk db working true p.call.class p.call.key p.call.idx p.call.is_final
          (end_upload db p s).1
        ≡ ok (some p.call.plain)
  unfolding end_upload gen_id encrypt_chunk
  end_upload-get_chunk s c p h done =
      let row = chunk_row db (id_called db p.call) p.call.plain in
      let found =
        commit_chunk-Found db p.env row (upload_path db p.call) s.tables
          (p.wrote, (p.placed, s.disk)) done in
      let (content, hash, got, _) =
        get_chunk_found db sound (end_upload db p s).1 (end_upload-IsConsistent db sound s c p h)
          p.call.class p.call.key p.call.idx row found in
      got
      ∙ ap (λ q. ok (some q))
          (sym (sound.collision_free.sha256_injective p.call.plain content hash))

  -- With sound crates, and whatever steps of other uploads went before: when an upload that is
  -- under way ends with success, get_chunk of its chunk and finality, whose calls work, gives the
  -- content that the upload was called with.
  pub Interleaved-get_chunk :
      {u : Shared}
      → Interleaved db u
      → (p : Upload) → u.pending (called_key p.call) ≡ some p
      → (end_upload db p u.store).0 ≡ ok tt
      → get_chunk db working true p.call.class p.call.key p.call.idx p.call.is_final
          (end_upload db p u.store).1
        ≡ ok (some p.call.plain)
  Interleaved-get_chunk i p under_way done =
      let calm = Interleaved-IsCalm i in
      end_upload-get_chunk _ calm.consistent p (calm.held _ p under_way).1 done
