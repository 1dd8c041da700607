-- ===== src/Db/Consistent.antt =====
-- What ties the tables to the files: each chunk row is backed by its blob file, and no file at a
-- blob's place holds anything but that blob, or less.
pub mod Place
pub mod Settle
pub mod Methods
pub mod Removal
pub mod Tasks
pub mod Reads
pub mod Cleanup
use v_m_io.Common.{
  ℕ, ◌≤◌, ◌≡◌, ◌≢◌, refl, sym, ap, ◌∙◌, subst, Bool, true, false, Option, none, some, List, [], ◌∷◌,
  arith, length, All, All-map,
}
use v_m_io.Common.Bytes.{Bytes}
use v_m_io.Common.Int.{ℤ, pos}
use v_m_io.Blob.Crypto.{IsCipher, IsCollisionFree}
use v_m_io.Blob.Layout.{FilePath, id_path_injective}
use v_m_io.Blob.Frame.{ChunkId, IsMachine}
use v_m_io.Blob.Cipher.{gen_id, encrypt_chunk, gen_id_injective, length-encrypt_chunk}
use v_m_io.Blob.Disk.{Disk}
use v_m_io.Sql.Tables.{Tables, ChunkRow, IsWellFormed, chunk_key}
use v_m_io.Db.Chunks.{chunk_size}
use v_m_io.Db.Store.{VmIoDb, Store, blob_path}

-- What the store asks of the crates in use: decryption undoes encryption, neither the content hash
-- nor the derived ids collide, and hex is injective.
pub record IsSound (db : VmIoDb) : Type 0 where
  pub cipher : IsCipher db.crypto
  pub collision_free : IsCollisionFree db.crypto
  pub hex_injective : (a b : Bytes) → db.hex.encode a ≡ db.hex.encode b → a ≡ b

abbrev pub id_of : ChunkRow → ChunkId
id_of row = record {
  class = row.class;
  key = row.key;
  idx = row.idx;
  hash = row.hash;
  is_final = row.is_final;
}

module _ (db : VmIoDb) where
  abbrev pub cipher_of : ChunkId → Bytes → Bytes
  cipher_of id plain = (encrypt_chunk db.crypto id plain db.blob_key).0

  abbrev pub tag_of : ChunkId → Bytes → Bytes
  tag_of id plain = (encrypt_chunk db.crypto id plain db.blob_key).1.tag

  abbrev pub path_of : ChunkId → FilePath
  path_of id = blob_path db (gen_id db.crypto id db.blob_key)

  -- The row is for some plaintext, and the file at its place holds the ciphertext of that.
  pub record Backed (disk : Disk) (row : ChunkRow) : Type 0 where
    pub plain : Bytes
    pub bounded : length plain ≤ chunk_size
    pub fits : IsMachine (id_of row)
    pub hash_is : row.hash ≡ db.crypto.sha256 plain
    pub blob_is : row.blob_id ≡ gen_id db.crypto (id_of row) db.blob_key
    pub tag_is : row.tag ≡ tag_of (id_of row) plain
    pub size_is : row.size ≡ pos (length plain)
    pub file_is : disk (path_of (id_of row)) ≡ some (cipher_of (id_of row) plain)

  -- A file at a blob's place that has the blob's length is that blob.
  pub record IsIntact (disk : Disk) : Type 0 where
    pub at_place :
        (id : ChunkId) (plain content : Bytes)
        → IsMachine id
        → id.hash ≡ db.crypto.sha256 plain
        → disk (path_of id) ≡ some content
        → length content ≡ length plain
        → content ≡ cipher_of id plain

  pub record IsConsistent (s : Store) : Type 0 where
    pub tables : IsWellFormed s.tables
    pub backed : All (Backed s.disk) s.tables.chunks
    pub intact : IsIntact s.disk

  -- Only the file of the row counts.
  pub Backed-frame :
      (disk disk' : Disk) (row : ChunkRow)
      → disk' (path_of (id_of row)) ≡ disk (path_of (id_of row))
      → Backed disk row
      → Backed disk' row
  Backed-frame disk disk' row e b = record {
    plain = b.plain;
    bounded = b.bounded;
    fits = b.fits;
    hash_is = b.hash_is;
    blob_is = b.blob_is;
    tag_is = b.tag_is;
    size_is = b.size_is;
    file_is = e ∙ b.file_is;
  }

  -- Files may go.
  pub IsIntact-shrink :
      (disk disk' : Disk)
      → ((q : FilePath) (content : Bytes) → disk' q ≡ some content → disk q ≡ some content)
      → IsIntact disk
      → IsIntact disk'
  IsIntact-shrink disk disk' sub h = record {
    at_place =
        λ id plain content fits hash_is e l. h.at_place id plain content fits hash_is (sub _ _ e) l;
  }

module _ (db : VmIoDb) (sound : IsSound db) where
  pub path_of_injective :
      (a b : ChunkId) → IsMachine a → IsMachine b → path_of db a ≡ path_of db b → a ≡ b
  path_of_injective a b ha hb e =
      gen_id_injective db.crypto sound.collision_free a b db.blob_key ha hb
        (id_path_injective db.hex sound.hex_injective db.root_dir _ _ e)

  -- Equal identities are of equal contents.
  pub plain_unique :
      (a b : ChunkId) (p q : Bytes)
      → a ≡ b
      → a.hash ≡ db.crypto.sha256 p
      → b.hash ≡ db.crypto.sha256 q
      → p ≡ q
  plain_unique a b p q e hp hq =
      sound.collision_free.sha256_injective p q (sym hp ∙ ap (λ (i : ChunkId). i.hash) e ∙ hq)

  pub length-cipher_of :
      (id : ChunkId) (plain : Bytes) → length (cipher_of db id plain) ≡ length plain
  length-cipher_of id plain = length-encrypt_chunk db.crypto sound.cipher id plain db.blob_key
