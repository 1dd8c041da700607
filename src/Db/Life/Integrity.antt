-- ===== src/Db/Life/Integrity.antt =====
-- `get_chunk` of rs/v-m-io-db/src/lib.rs where the blob files may have been changed.
use v_m_io.Common.{
  ◌≡◌, refl, sym, ap, ap₂, ◌∙◌, subst, Bool, true, Option, none, some, arith, Bool-cases,
  Option-cases, inl, inr, is_yes→, All-find,
}
use v_m_io.Common.Bytes.{Bytes}
use v_m_io.Common.Int.{ℤ}
use v_m_io.Io.{ok}
use v_m_io.Blob.Crypto.{Crypto}
use v_m_io.Blob.Cipher.{derive, encrypt_chunk, decrypt_chunk}
use v_m_io.Blob.Frame.{ChunkId}
use v_m_io.Blob.Disk.{Disk}
use v_m_io.Sql.Tables.{ChunkRow, Chunk, chunk_key, dec_chunk_key}
use v_m_io.Sql.Statements.{find_chunk, get_chunk_row, to_chunk}
use v_m_io.Sql.Methods.{Engine}
use v_m_io.Sql.Methods as Sql
use v_m_io.Db.Store.{VmIoDb, Store}
use v_m_io.Db.Chunks.{
  chunk_id, chunk_row, check_size, same_bool, open_chunk, found_id, get_found, get_chunk,
}
use v_m_io.Db.Life.Rows.{Disturbed, Disturbed-Rows}

-- What decryption accepts is what encryption made, and under one key, nonce and associated data no
-- two messages are found that have one tag.
pub record IsAuthentic (c : Crypto) : Type 0 where
  pub made :
      (key nonce adata cipher tag plain : Bytes)
      → c.decrypt key nonce adata cipher tag ≡ some plain
      → c.encrypt key nonce adata plain ≡ (cipher, tag)
  pub tag_binds :
      (key nonce adata a b : Bytes)
      → (c.encrypt key nonce adata a).1 ≡ (c.encrypt key nonce adata b).1
      → a ≡ b

module _ (db : VmIoDb) where
  -- The row is that of an `upsert_chunk`.
  abbrev Made : ChunkRow → Type 0
  Made r =
      (plain : Bytes) × (r ≡ chunk_row db (chunk_id db r.class r.key r.idx r.is_final plain) plain)

  chunk_row-Made :
      (class key : Bytes) (idx : ℤ) (is_final : Bool) (plain : Bytes)
      → check_size is_final plain ≡ ok tt
      → Made (chunk_row db (chunk_id db class key idx is_final plain) plain)
  chunk_row-Made class key idx is_final plain h = (plain, refl)

  Disturbed-Made :
      {s : Store}
      → Disturbed db s
      → (k : (Bytes × Bytes) × ℤ) (r : ChunkRow) → find_chunk k s.tables.chunks ≡ some r
      → Made r × (k ≡ chunk_key r)
  Disturbed-Made {s} d k r h =
      let rows = Disturbed-Rows db (λ _. Unit {0}) Made (λ _ _. tt) chunk_row-Made d in
      let (m, same) = All-find Made _ s.tables.chunks r rows.1 h in
      (m, is_yes→ (dec_chunk_key k (chunk_key r)) same)

  -- A blob that opens under a tag of `encrypt_chunk` opens to what was encrypted.
  decrypt_chunk-tag :
      IsAuthentic db.crypto
      → (id : ChunkId) (cipher plain content : Bytes)
      → decrypt_chunk db.crypto id cipher db.blob_key
          (encrypt_chunk db.crypto id plain db.blob_key).1.tag
        ≡ ok content
      → content ≡ plain
  unfolding decrypt_chunk encrypt_chunk
  decrypt_chunk-tag auth id cipher plain content h =
      let keys = derive db.crypto id db.blob_key in
      let tag = (db.crypto.encrypt keys.key keys.nonce keys.adata plain).1 in
      let opened : db.crypto.decrypt keys.key keys.nonce keys.adata cipher tag ≡ some content =
        ground arith in
      auth.tag_binds keys.key keys.nonce keys.adata content plain (
        ap (λ (r : Bytes × Bytes). r.1)
          (auth.made keys.key keys.nonce keys.adata cipher tag content opened))

  open_chunk-opened :
      (id : ChunkId) (chunk : Chunk) (read : Option Bytes) (content : Bytes)
      → open_chunk db id chunk read ≡ ok (some content)
      → (cipher : Bytes) × (decrypt_chunk db.crypto id cipher db.blob_key chunk.tag ≡ ok content)
  unfolding open_chunk
  open_chunk-opened id chunk none content h = cc
  open_chunk-opened id chunk (some cipher) content h = (cipher, ground arith)

  -- What a read that finds a row gives.
  get_found-opened :
      (reads : Bool) (class key : Bytes) (idx : ℤ) (is_final : Bool) (disk : Disk) (chunk : Chunk)
      (content : Bytes)
      → get_found db reads class key idx is_final disk (some chunk) ≡ ok (some content)
      → (same_bool is_final chunk.is_final ≡ true)
        × (cipher : Bytes) × (decrypt_chunk db.crypto
              (found_id db class key idx is_final chunk)
              cipher
              db.blob_key
              chunk.tag
            ≡ ok content)
  unfolding get_found
  get_found-opened reads class key idx is_final disk chunk content h =
      elim (Bool-cases (same_bool is_final chunk.is_final)) [
        | inl e ↦
            let (cipher, opened) =
              open_chunk-opened (found_id db class key idx is_final chunk) chunk _ content
                (rw e at h) in
            (e, cipher, opened)
        | inr e ↦ absurd (ground arith)
      ]

  get_chunk-found :
      (engine : Engine) (reads : Bool) (class key : Bytes) (idx : ℤ) (is_final : Bool) (s : Store)
      (content : Bytes)
      → get_chunk db engine reads class key idx is_final s ≡ ok (some content)
      → (r : ChunkRow) × (find_chunk ((class, key), idx) s.tables.chunks ≡ some r)
        × (get_found db reads class key idx is_final s.disk (some (to_chunk r)) ≡ ok (some content))
  unfolding get_chunk Sql.get_chunk get_chunk_row
  get_chunk-found engine reads class key idx is_final s content h =
      elim (Option-cases (find_chunk ((class, key), idx) s.tables.chunks)) [
        | inl absent ↦ absurd (ground arith)
        | inr (r, present) ↦ (r, present, ground arith)
      ]

same_bool→ : (a b : Bool) → same_bool a b ≡ true → a ≡ b
same_bool→ a b h = ground arith

module _ (db : VmIoDb) (auth : IsAuthentic db.crypto) where
  -- With authenticated encryption, and even if the files are changed at will between the calls: a
  -- content that get_chunk gives is the one whose chunk row upsert_chunk makes under that class,
  -- key, index and finality, and this row is in the table.
  pub Disturbed-get_chunk :
      {s : Store}
      → Disturbed db s
      → (engine : Engine) (reads : Bool) (class key : Bytes) (idx : ℤ) (is_final : Bool)
        (content : Bytes)
      → get_chunk db engine reads class key idx is_final s ≡ ok (some content)
      → find_chunk ((class, key), idx) s.tables.chunks
        ≡ some (chunk_row db (chunk_id db class key idx is_final content) content)
  Disturbed-get_chunk {s} d engine reads class key idx is_final content h =
      let (r, present, got) = get_chunk-found db engine reads class key idx is_final s content h in
      let (same, cipher, opened) =
        get_found-opened db reads class key idx is_final s.disk (to_chunk r) content got in
      let ((plain, made), place) = Disturbed-Made db d ((class, key), idx) r present in
      let final : is_final ≡ r.is_final = same_bool→ is_final r.is_final same in
      let row : r ≡ chunk_row db (chunk_id db class key idx is_final plain) plain =
        made
        ∙ ap
            (λ (q : ((Bytes × Bytes) × ℤ) × Bool).
              chunk_row db (chunk_id db q.0.0.0 q.0.0.1 q.0.1 q.1 plain) plain)
            (ap₂ (λ (k : (Bytes × Bytes) × ℤ) (b : Bool). (k, b)) (sym place) (sym final)) in
      let eq : content ≡ plain =
        decrypt_chunk-tag db auth (chunk_id db class key idx is_final plain) cipher plain content (
          subst
            (λ (x : ChunkRow).
              decrypt_chunk db.crypto (found_id db class key idx is_final (to_chunk x)) cipher
                db.blob_key x.tag
              ≡ ok content)
            row opened) in
      present
      ∙ ap some (row ∙ ap (λ p. chunk_row db (chunk_id db class key idx is_final p) p) (sym eq))
