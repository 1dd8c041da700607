-- ===== src/Db/Consistent/Reads.antt =====
-- What `get_chunk` of rs/v-m-io-db/src/lib.rs gives on a consistent store, and after
-- `upsert_chunk`.
use v_m_io.Common.{
  ◌^◌, ◌<◌, ◌≡◌, refl, sym, ap, ◌∙◌, subst, Bool, true, false, not, Option, none, some, List, [],
  ◌∷◌, ◌++◌, map, arith, length, All-find, find, Bool-cases, inl, inr, is_yes→, →is_yes, ◌==◌,
  ==_iff,
}
use v_m_io.Common.Bytes.{Bytes}
use v_m_io.Common.Int.{ℤ, IsI64, to_u64}
use v_m_io.Io.{Result, ok, err, finality_mismatch}
use v_m_io.Blob.Layout.{FilePath}
use v_m_io.Blob.Frame.{ChunkId}
use v_m_io.Blob.Cipher.{decrypt_chunk, decrypt_chunk-encrypt_chunk}
use v_m_io.Blob.Disk.{Disk}
use v_m_io.Sql.Tables.{Tables, ChunkRow, chunk_key, same_chunk, dec_chunk_key}
use v_m_io.Sql.Statements.{find_chunk, get_chunk_row, to_chunk, replace_chunk}
use v_m_io.Sql.Methods.{Engine, working}
use v_m_io.Sql.Methods as Sql
use v_m_io.Sql.Outcomes.{ChunkOutcome}
use v_m_io.Db.Store.{VmIoDb, Store, or_else}
use v_m_io.Db.Chunks.{
  ChunkEnv, chunk_id, chunk_row, check_size, settle, commit_chunk, store_chunk, upsert_chunk,
  same_bool, get_found, get_chunk,
}
use v_m_io.Db.Consistent.{IsSound, IsConsistent, id_of, cipher_of, tag_of, Backed, length-cipher_of}
use v_m_io.Db.Consistent.Methods.{upsert_chunk-IsConsistent}
use v_m_io.Db.Consistent.Settle.{upsert_chunk-Committed}

pub same_bool_refl : (b : Bool) → same_bool b b ≡ true
same_bool_refl true = refl
same_bool_refl false = refl

pub same_bool-not : (b : Bool) → same_bool (not b) b ≡ false
same_bool-not true = refl
same_bool-not false = refl

module _ (db : VmIoDb) (sound : IsSound db) where
  -- The blob of a backed row opens to the row's content.
  open-Backed :
      (disk : Disk) (r : ChunkRow) (b : Backed db disk r)
      → get_found db true r.class r.key r.idx r.is_final disk (some (to_chunk r))
        ≡ ok (some b.plain)
  unfolding get_found
  open-Backed disk r b =
      let cipher = cipher_of db (id_of r) b.plain in
      let len : length cipher ≡ length b.plain = length-cipher_of db sound (id_of r) b.plain in
      let size : to_u64 r.size ≡ length b.plain = ap to_u64 b.size_is ∙ omega (arith, b.bounded) in
      let same : (length cipher == to_u64 r.size) ≡ true =
        (==_iff (length cipher) (to_u64 r.size)).1 (len ∙ sym size) in
      let opened : decrypt_chunk db.crypto (id_of r) cipher db.blob_key
            (tag_of db (id_of r) b.plain)
          ≡ ok b.plain =
        decrypt_chunk-encrypt_chunk db.crypto sound.cipher (id_of r) b.plain db.blob_key in
      rw (same_bool_refl r.is_final, b.file_is, same, b.tag_is, opened)

  -- With sound crates, in a consistent store and with calls that work, get_chunk of a chunk that
  -- has a row gives a content of the row's hash if the asked finality is the row's, and the
  -- finality error otherwise.
  pub get_chunk_found :
      (s : Store)
      → IsConsistent db s
      → (class key : Bytes) (idx : ℤ) (r : ChunkRow)
      → find_chunk ((class, key), idx) s.tables.chunks ≡ some r
      → (plain : Bytes) × (r.hash ≡ db.crypto.sha256 plain)
        × (get_chunk db working true class key idx r.is_final s ≡ ok (some plain))
        × (get_chunk db working true class key idx (not r.is_final) s ≡ err finality_mismatch)
  unfolding get_chunk Sql.get_chunk get_chunk_row
  get_chunk_found s c class key idx r h =
      let (b, s') = All-find (Backed db s.disk) _ s.tables.chunks r c.backed h in
      let k : ((class, key), idx) ≡ chunk_key r =
        is_yes→ (dec_chunk_key ((class, key), idx) (chunk_key r)) s' in
      let opened = open-Backed s.disk r b in
      (
        b.plain,
        b.hash_is,
        rw h (
            subst
              (λ (q : (Bytes × Bytes) × ℤ).
                get_found db true q.0.0 q.0.1 q.1 r.is_final s.disk (some (to_chunk r))
                ≡ ok (some b.plain))
              (sym k) opened),
        rw h (rw (same_bool-not r.is_final)),
      )

  -- A chunk without a row is none, whatever finality is asked.
  pub get_chunk_absent :
      (s : Store) (class key : Bytes) (idx : ℤ) (is_final : Bool)
      → find_chunk ((class, key), idx) s.tables.chunks ≡ none
      → get_chunk db working true class key idx is_final s ≡ ok none
  unfolding get_chunk Sql.get_chunk get_chunk_row
  get_chunk_absent s class key idx is_final h = rw h

find-append_absent :
    {A : Type 0} (p : A → Bool) (xs : List A) (x : A)
    → find p xs ≡ none
    → p x ≡ true
    → find p (xs ++ (x ∷ [])) ≡ some x
find-append_absent p [] x h e = rw e
find-append_absent p (y ∷ xs) x h e = ground (arith, find-append_absent p xs x)

find-replaced :
    (row b : ChunkRow) (cs : List ChunkRow)
    → find_chunk (chunk_key row) cs ≡ some b
    → find_chunk (chunk_key row) (map (replace_chunk row) cs) ≡ some row
find-replaced row b [] h = cc
find-replaced row b (c ∷ cs) h = elim (Bool-cases (same_chunk (chunk_key row) (chunk_key c))) [
  | inl s ↦ rw s (rw (→is_yes (dec_chunk_key (chunk_key row) (chunk_key row)) refl))
  | inr s ↦ rw s (rw s (find-replaced row b cs (ground arith)))
]

committed-found :
    (row : ChunkRow) (t t' : Tables)
    → ChunkOutcome row t t'
    → find_chunk (chunk_key row) t'.chunks ≡ some row
committed-found row t t' (inl o) =
    subst (λ (u : Tables). find_chunk (chunk_key row) u.chunks ≡ some row) (sym o.result)
      (find-append_absent _ t.chunks row o.absent
        (→is_yes (dec_chunk_key (chunk_key row) (chunk_key row)) refl))
committed-found row t t' (inr o) =
    subst (λ (u : Tables). find_chunk (chunk_key row) u.chunks ≡ some row) (sym o.result)
      (find-replaced row o.before t.chunks o.present)

module _ (db : VmIoDb) (env : ChunkEnv) (row : ChunkRow) (path : FilePath) (t : Tables) where
  abbrev Found : Result (Unit {0}) × Store → Type 0
  Found r = r.0 ≡ ok tt → find_chunk (chunk_key row) r.1.tables.chunks ≡ some row

  settle-Found :
      (wrote : Bool) (disk : Disk) (prev : Option Bytes) (t' : Tables)
      → find_chunk (chunk_key row) t'.chunks ≡ some row
      → Found (settle db env wrote path disk (ok prev, t'))
  unfolding settle
  settle-Found wrote disk none t' h e = h
  settle-Found wrote disk (some prev) t' h e = h

  pub commit_chunk-Found :
      (placed : Bool × (Result (Unit {0}) × Disk)) → Found (commit_chunk db env row path t placed)
  unfolding commit_chunk
  commit_chunk-Found (wrote, (err x, disk)) = λ e. cc
  commit_chunk-Found (wrote, (ok u, disk)) = elim (upsert_chunk-Committed env.engine row t) [
    | inl (x, failed) ↦ rw failed (λ e. cc)
    | inr (t', outcome, done) ↦
        rw done (settle-Found wrote disk _ t' (committed-found row t t' outcome))
  ]

module _ (db : VmIoDb) (env : ChunkEnv) where
  -- After an upsert that succeeds, the row is there.
  pub stored-found :
      (class key : Bytes) (idx : ℤ) (plain : Bytes) (is_final : Bool) (s : Store)
      → (upsert_chunk db env class key idx plain is_final s).0 ≡ ok tt
      → find_chunk
          ((class, key), idx)
          (upsert_chunk db env class key idx plain is_final s).1.tables.chunks
        ≡ some (chunk_row db (chunk_id db class key idx is_final plain) plain)
  unfolding upsert_chunk store_chunk
  stored-found class key idx plain is_final s = go (check_size is_final plain)
    where
      id : ChunkId
      id = chunk_id db class key idx is_final plain

      go :
          (r : Result (Unit {0}))
          → (or_else s r (store_chunk db env id plain s)).0 ≡ ok tt
          → find_chunk
              ((class, key), idx)
              (or_else s r (store_chunk db env id plain s)).1.tables.chunks
            ≡ some (chunk_row db id plain)
      go (ok u) e = commit_chunk-Found db env (chunk_row db id plain) _ s.tables _ e
      go (err x) e = cc

module _ (db : VmIoDb) (sound : IsSound db) (env : ChunkEnv) (stat : env.stat_works ≡ true) where
  -- With sound crates, a metadata call that works, a class and a key shorter than 2^64 bytes and
  -- an i64 index: after an upsert_chunk on a consistent store that reports success, get_chunk of
  -- the same chunk and finality, whose calls work, gives the content that was stored.
  pub get_chunk-upsert_chunk :
      (class key : Bytes) (idx : ℤ) (plain : Bytes) (is_final : Bool) (s : Store)
      → length class < 2 ^ 64
      → length key < 2 ^ 64
      → IsI64 idx
      → IsConsistent db s
      → (upsert_chunk db env class key idx plain is_final s).0 ≡ ok tt
      → get_chunk db working true class key idx is_final
          (upsert_chunk db env class key idx plain is_final s).1
        ≡ ok (some plain)
  get_chunk-upsert_chunk class key idx plain is_final s hc hk hi c done =
      let s' = (upsert_chunk db env class key idx plain is_final s).1 in
      let c' =
        upsert_chunk-IsConsistent db sound env stat class key idx plain is_final s hc hk hi c in
      let row = chunk_row db (chunk_id db class key idx is_final plain) plain in
      let found = stored-found db env class key idx plain is_final s done in
      let (content, hash, got, _) = get_chunk_found db sound s' c' class key idx row found in
      got ∙ ap (λ p. ok (some p)) (sym (sound.collision_free.sha256_injective plain content hash))
