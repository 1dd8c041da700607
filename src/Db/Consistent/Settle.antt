-- ===== src/Db/Consistent/Settle.antt =====
-- The second half of `upsert_chunk` in rs/v-m-io-db/src/lib.rs: the row is committed, and the blob
-- that it no longer names is removed.
use v_m_io.Common.{
  ◌≡◌, ◌≢◌, refl, sym, ap, ◌∙◌, subst, Bool, true, false, Option, none, some, [], ◌∷◌, arith, All,
  All-map, All-map_fun, All-append, All-both, All-find, All-of_find, Bool-cases, Option-cases, inl,
  inr, ◌⊎◌, is_yes→, is_no→, →is_yes,
}
use v_m_io.Common.Bytes.{Bytes, dec_bytes}
use v_m_io.Io.{IoError, Result, ok, err, ◌>>=◌}
use v_m_io.Blob.Layout.{FilePath, id_path_injective}
use v_m_io.Blob.Frame.{ChunkId}
use v_m_io.Blob.Disk.{Disk, set_file_ne}
use v_m_io.Sql.Tables.{Tables, ChunkRow, IsWellFormed, chunk_key, same_chunk, dec_chunk_key}
use v_m_io.Sql.Statements.{upsert_chunk_row, get_chunk_blob_id, find_chunk, replace_chunk}
use v_m_io.Sql.Methods.{
  Engine, begin, query, execute, commit, called, satisfied, transact, drop_same, upsert_chunk,
}
use v_m_io.Sql.Outcomes.{ChunkOutcome, upsert_chunk_row-Outcome}
use v_m_io.Sql.WellFormed.{upsert_chunk_row-IsWellFormed}
use v_m_io.Sql.Transact.{transact-bind, satisfied-ok}
use v_m_io.Db.Store.{VmIoDb, blob_path, remove_file}
use v_m_io.Db.Chunks.{ChunkEnv, settle}
use v_m_io.Db.Consistent.{
  IsSound, IsConsistent, id_of, path_of, Backed, IsIntact, IsIntact-shrink, Backed-frame,
  path_of_injective,
}

-- Removing a file leaves the others, and adds nothing.
pub remove_file_ne :
    (removable : FilePath → Bool) (p q : FilePath) (disk : Disk)
    → q ≢ p
    → remove_file removable p disk q ≡ disk q
remove_file_ne removable p q disk h = elim (Bool-cases (removable p)) [
  | inl e ↦ rw e (set_file_ne disk p q none h)
  | inr e ↦ rw e
]

pub remove_file-shrink :
    (removable : FilePath → Bool) (p q : FilePath) (disk : Disk) (content : Bytes)
    → remove_file removable p disk q ≡ some content
    → disk q ≡ some content
remove_file-shrink removable p q disk content h = ground arith

-- `Sql::upsert_chunk` fails and changes nothing, or commits the row and gives the blob id that the
-- chunk had, if it was another.
abbrev pub Committed : ChunkRow → Tables → Result (Option Bytes) × Tables → Type 0
Committed row t r =
    ((e : IoError) × (r ≡ (err e, t)))
    ⊎ ((t' : Tables) × ChunkOutcome row t t'
        × (r ≡ (ok (drop_same row.blob_id (get_chunk_blob_id (chunk_key row) t)), t')))

pub upsert_chunk-Committed :
    (engine : Engine) (row : ChunkRow) (t : Tables) → Committed row t (upsert_chunk engine row t)
unfolding upsert_chunk
upsert_chunk-Committed engine row t = bind (called engine begin) _ (λ _ _.
    bind (called engine query) _ (λ _ _. bind (called engine execute) _ (λ _ _.
      transact-bind (Committed row t) t failed (satisfied (upsert_chunk_row row t)) _ (λ t' e.
        bind (called engine commit) _
          (λ _ _. inr (t', upsert_chunk_row-Outcome row t t' (satisfied-ok _ _ e), refl))))))
  where
    failed : (e : IoError) → Committed row t (err e, t)
    failed e = inl (e, refl)

    bind :
        (m : Result (Unit {0})) (f : Unit {0} → Result (Option Bytes × Tables))
        → ((a : Unit {0}) → m ≡ ok a → Committed row t (transact t (f a)))
        → Committed row t (transact t (m >>= f))
    bind = transact-bind (Committed row t) t failed

-- The chunk had another blob before: that of a row under its key.
pub drop_same-some :
    (row : ChunkRow) (t : Tables) (prev : Bytes)
    → drop_same row.blob_id (get_chunk_blob_id (chunk_key row) t) ≡ some prev
    → (before : ChunkRow) × (find_chunk (chunk_key row) t.chunks ≡ some before)
      × (before.blob_id ≡ prev)
      × (prev ≢ row.blob_id)
unfolding get_chunk_blob_id
drop_same-some row t prev h = elim (Option-cases (find_chunk (chunk_key row) t.chunks)) [
  | inl e ↦ absurd (ground arith)
  | inr (before, e) ↦ (
    before,
    e,
    ground arith,
    λ same. ground (arith, →is_yes (dec_bytes before.blob_id row.blob_id)),
  )
]

module _ (db : VmIoDb) (row : ChunkRow) (t : Tables) where
  -- The rows after the commit are backed by a disk that holds the blob of the new row and the
  -- blobs of the rows under other keys.
  committed-Backed :
      (disk disk' : Disk) (t' : Tables)
      → All (Backed db disk) t.chunks
      → Backed db disk' row
      → ((r : ChunkRow)
          → Backed db disk r
          → same_chunk (chunk_key row) (chunk_key r) ≡ false
          → Backed db disk' r)
      → ChunkOutcome row t t'
      → All (Backed db disk') t'.chunks
  committed-Backed disk disk' t' old new others (inl o) =
      subst (λ (u : Tables). All (Backed db disk') u.chunks) (sym o.result)
        (All-append _ t.chunks (row ∷ [])
          (All-map _ _ t.chunks (λ r b. others r b.1 b.0)
            (All-both _ _ t.chunks (All-of_find _ t.chunks o.absent) old))
          (new, tt))
  committed-Backed disk disk' t' old new others (inr o) =
      subst (λ (u : Tables). All (Backed db disk') u.chunks) (sym o.result)
        (All-map_fun _ _ (replace_chunk row) t.chunks
          (λ r b. elim (Bool-cases (same_chunk (chunk_key row) (chunk_key r))) [
            | inl s ↦ rw s new
            | inr s ↦ rw s (others r b s)
          ])
          old)

module _ (db : VmIoDb) (sound : IsSound db) (env : ChunkEnv) (t : Tables)
    (well_formed : IsWellFormed t) (row : ChunkRow) (wrote : Bool) (disk : Disk)
    (backed : All (Backed db disk) t.chunks) (intact : IsIntact db disk)
    (fresh : wrote ≡ true → All (λ r. path_of db (id_of r) ≢ path_of db (id_of row)) t.chunks)
    (new : Backed db disk row) where
  abbrev path : FilePath
  path = path_of db (id_of row)

  -- Removing a file at the place of none of the rows keeps them backed.
  removed-Backed :
      (p : FilePath) (r : ChunkRow)
      → path_of db (id_of r) ≢ p
      → Backed db disk r
      → Backed db (remove_file env.removable p disk) r
  removed-Backed p r h b =
      Backed-frame db disk (remove_file env.removable p disk) r
        (remove_file_ne env.removable p (path_of db (id_of r)) disk h) b

  removed-IsIntact : (p : FilePath) → IsIntact db (remove_file env.removable p disk)
  removed-IsIntact p =
      IsIntact-shrink db disk (remove_file env.removable p disk)
        (λ q content e. remove_file-shrink env.removable p q disk content e) intact

  -- The row's blob and those under other keys outlive the removal of the blob before.
  module _ (before : ChunkRow) (present : find_chunk (chunk_key row) t.chunks ≡ some before) where
    was : Backed db disk before × (same_chunk (chunk_key row) (chunk_key before) ≡ true)
    was = All-find (Backed db disk) _ t.chunks before backed present

    before_path-others :
        (r : ChunkRow)
        → Backed db disk r
        → same_chunk (chunk_key row) (chunk_key r) ≡ false
        → path_of db (id_of r) ≢ path_of db (id_of before)
    before_path-others r b other e =
        let ids = path_of_injective db sound (id_of r) (id_of before) b.fits was.0.fits e in
        let keys = is_yes→ (dec_chunk_key (chunk_key row) (chunk_key before)) was.1 in
        is_no→ (dec_chunk_key (chunk_key row) (chunk_key r)) other
          (keys ∙ ap (λ (i : ChunkId). ((i.class, i.key), i.idx)) (sym ids))

    before_path-row : before.blob_id ≢ row.blob_id → path ≢ path_of db (id_of before)
    before_path-row ne e = ne (
        was.0.blob_is
        ∙ sym (id_path_injective db.hex sound.hex_injective db.root_dir _ _ e)
        ∙ sym new.blob_is)

  settle-err : (e : IoError) → IsConsistent db (settle db env wrote path disk (err e, t)).1
  unfolding settle
  settle-err e = elim (Bool-cases wrote) [
    | inl w ↦ rw w (record {
      tables = well_formed;
      backed =
          All-map _ _ t.chunks (λ r b. removed-Backed path r b.0 b.1)
            (All-both _ _ t.chunks (fresh w) backed);
      intact = removed-IsIntact path;
    })
    | inr k ↦ rw k (record { tables = well_formed; backed = backed; intact = intact })
  ]

  settle-kept :
      (t' : Tables)
      → ChunkOutcome row t t'
      → IsConsistent db (settle db env wrote path disk (ok none, t')).1
  unfolding settle
  settle-kept t' outcome = record {
    tables = upsert_chunk_row-IsWellFormed t well_formed row t' outcome;
    backed = committed-Backed db row t disk disk t' backed new (λ r b _. b) outcome;
    intact = intact;
  }

  settle-replaced :
      (t' : Tables) (prev : Bytes)
      → ChunkOutcome row t t'
      → drop_same row.blob_id (get_chunk_blob_id (chunk_key row) t) ≡ some prev
      → IsConsistent db (settle db env wrote path disk (ok (some prev), t')).1
  unfolding settle
  settle-replaced t' prev outcome h =
      let (before, present, is_prev, ne) = drop_same-some row t prev h in
      let b = was before present in
      let place : blob_path db prev ≡ path_of db (id_of before) =
        ap (blob_path db) (sym is_prev ∙ b.0.blob_is) in
      let ne' : before.blob_id ≢ row.blob_id = λ e. ne (sym is_prev ∙ e) in
      let p = blob_path db prev in
      record {
        tables = upsert_chunk_row-IsWellFormed t well_formed row t' outcome;
        backed =
            committed-Backed db row t disk (remove_file env.removable p disk) t' backed
              (removed-Backed p row (λ e. before_path-row before present ne' (e ∙ place)) new)
              (λ r c other.
                removed-Backed p r (λ e. before_path-others before present r c other (e ∙ place)) c)
              outcome;
        intact = removed-IsIntact p;
      }

  -- Whether the row is committed or not, the store is consistent after the last `match`.
  pub settle-IsConsistent :
      IsConsistent db (settle db env wrote path disk (upsert_chunk env.engine row t)).1
  settle-IsConsistent = elim (upsert_chunk-Committed env.engine row t) [
    | inl (e, failed) ↦ rw failed (settle-err e)
    | inr (t', outcome, done) ↦
        rw done (elim (Option-cases (drop_same row.blob_id (get_chunk_blob_id (chunk_key row) t))) [
          | inl e ↦ rw e (settle-kept t' outcome)
          | inr (prev, e) ↦ rw e (settle-replaced t' prev outcome e)
        ])
  ]
