-- ===== src/Db/Consistent/Methods.antt =====
-- `upsert_chunk` of rs/v-m-io-db/src/lib.rs as a whole, and the tie between tables and files.
use v_m_io.Common.{
  ◌^◌, ◌<◌, ◌≤◌, ◌≡◌, refl, sym, ap, ◌∙◌, subst, Bool, true, some, arith, length, All, All-map,
}
use v_m_io.Common.Bytes.{Bytes}
use v_m_io.Common.Int.{ℤ, IsI64}
use v_m_io.Io.{Result, ok, err}
use v_m_io.Blob.Frame.{ChunkId, IsMachine}
use v_m_io.Blob.Cipher.{gen_id, encrypt_chunk}
use v_m_io.Blob.Disk.{Disk}
use v_m_io.Db.Store.{VmIoDb, Store, or_else}
use v_m_io.Db.Chunks.{
  ChunkEnv, chunk_id, chunk_row, check_size, chunk_size, place_blob, commit_chunk, store_chunk,
  upsert_chunk,
}
use v_m_io.Db.Consistent.{
  IsSound, IsConsistent, cipher_of, path_of, Backed, IsIntact, length-cipher_of,
}
use v_m_io.Db.Consistent.Place.{placed-Backed, placed-IsIntact, placed-file, placed-fresh}
use v_m_io.Db.Consistent.Settle.{settle-IsConsistent}

abbrev Placed : Type 0
Placed = Bool × (Result (Unit {0}) × Disk)

-- What passes the check of the size is at most 5 MiB.
pub check_size-ok :
    (is_final : Bool) (plain : Bytes) {u : Unit {0}}
    → check_size is_final plain ≡ ok u
    → length plain ≤ chunk_size
check_size-ok is_final plain h = ground arith

module _ (db : VmIoDb) (sound : IsSound db) where
  pub new-Backed :
      (id : ChunkId) (plain : Bytes) (disk : Disk)
      → IsMachine id
      → length plain ≤ chunk_size
      → id.hash ≡ db.crypto.sha256 plain
      → disk (path_of db id) ≡ some (cipher_of db id plain)
      → Backed db disk (chunk_row db id plain)
  unfolding gen_id encrypt_chunk
  new-Backed id plain disk fits small hash_is file = record {
    plain = plain;
    bounded = small;
    fits = fits;
    hash_is = hash_is;
    blob_is = refl;
    tag_is = refl;
    size_is = ap ℤ.pos (length-cipher_of db sound id plain);
    file_is = file;
  }

module _ (db : VmIoDb) (sound : IsSound db) (env : ChunkEnv) (stat : env.stat_works ≡ true) where
  commit_chunk-IsConsistent :
      (id : ChunkId) (plain : Bytes) (s : Store)
      → IsMachine id
      → length plain ≤ chunk_size
      → id.hash ≡ db.crypto.sha256 plain
      → IsConsistent db s
      → (placed : Bool × (Result (Unit {0}) × Disk))
      → place_blob env (path_of db id) (cipher_of db id plain) s.disk ≡ placed
      → IsConsistent db
          (commit_chunk db env (chunk_row db id plain) (path_of db id) s.tables placed).1
  unfolding commit_chunk
  commit_chunk-IsConsistent id plain s fits small hash_is c (wrote, (err e, disk)) eq = record {
    tables = c.tables;
    backed =
        subst (λ (p : Placed). All (Backed db p.1.1) s.tables.chunks) eq
          (All-map _ _ s.tables.chunks
            (placed-Backed db sound env stat id plain fits hash_is s.disk) c.backed);
    intact =
        subst (λ (p : Placed). IsIntact db p.1.1) eq
          (placed-IsIntact db sound env stat id plain fits hash_is s.disk c.intact);
  }
  commit_chunk-IsConsistent id plain s fits small hash_is c (wrote, (ok u, disk)) eq =
      settle-IsConsistent db sound env s.tables c.tables (chunk_row db id plain) wrote disk
        (subst (λ (p : Placed). All (Backed db p.1.1) s.tables.chunks) eq
          (All-map _ _ s.tables.chunks
            (placed-Backed db sound env stat id plain fits hash_is s.disk) c.backed))
        (subst (λ (p : Placed). IsIntact db p.1.1) eq
          (placed-IsIntact db sound env stat id plain fits hash_is s.disk c.intact))
        (λ w.
          All-map _ _ s.tables.chunks
            (λ r b.
              placed-fresh db sound env stat id plain fits hash_is s.disk r b
                (ap (λ (p : Placed). p.0) eq ∙ w))
            c.backed)
        (new-Backed db sound id plain disk fits small hash_is (
          sym (ap (λ (p : Placed). p.1.1 (path_of db id)) eq)
          ∙ placed-file db sound env stat id plain fits hash_is s.disk c.intact
              (ap (λ (p : Placed). p.1.0) eq)))

  store_chunk-IsConsistent :
      (id : ChunkId) (plain : Bytes) (s : Store)
      → IsMachine id
      → length plain ≤ chunk_size
      → id.hash ≡ db.crypto.sha256 plain
      → IsConsistent db s
      → IsConsistent db (store_chunk db env id plain s).1
  unfolding store_chunk gen_id encrypt_chunk
  store_chunk-IsConsistent id plain s fits small hash_is c =
      commit_chunk-IsConsistent id plain s fits small hash_is c _ refl

  -- With sound crates, a metadata call that works, a class and a key shorter than 2^64 bytes and
  -- an i64 index: upsert_chunk keeps the store consistent, whatever calls of the engine fail,
  -- however the write of the blob ends and whichever removals work.
  pub upsert_chunk-IsConsistent :
      (class key : Bytes) (idx : ℤ) (plain : Bytes) (is_final : Bool) (s : Store)
      → length class < 2 ^ 64
      → length key < 2 ^ 64
      → IsI64 idx
      → IsConsistent db s
      → IsConsistent db (upsert_chunk db env class key idx plain is_final s).1
  unfolding upsert_chunk
  upsert_chunk-IsConsistent class key idx plain is_final s hc hk hi c =
      go (check_size is_final plain) refl
    where
      id : ChunkId
      id = chunk_id db class key idx is_final plain

      go :
          (r : Result (Unit {0}))
          → check_size is_final plain ≡ r
          → IsConsistent db (or_else s r (store_chunk db env id plain s)).1
      go (ok u) e =
          store_chunk-IsConsistent id plain s
            (record { class_fits = hc; key_fits = hk; idx_fits = hi })
            (check_size-ok is_final plain e) refl c
      go (err x) e = c
