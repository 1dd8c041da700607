-- ===== src/Examples/Lives.antt =====
-- The theorems on the life of a store: calls, crashes, tampering, and a cleanup that is overtaken.
use v_m_io.Common.{
  [], ◌∷◌, ◌≡◌, refl, true, false, some, none, arith, is_yes, is_yes→, is_no→, if◌then◌else◌,
  Bool-cases, inl, inr,
}
use v_m_io.Common.Bytes.{Bytes, dec_bytes, dec_path, dec_pair, le_bytes}
use v_m_io.Common.Int.{pos, negsuc, ℤ-discrete}
use v_m_io.Io.{ok, err, file_system}
use v_m_io.Blob.Frame.{frame}
use v_m_io.Blob.Layout.{id_path}
use v_m_io.Blob.Cipher.{encrypt_chunk, gen_id, decrypt_chunk}
use v_m_io.Blob.Disk.{Disk, torn, write}
use v_m_io.Sql.Tables.{ChunkRow, dec_chunk_key}
use v_m_io.Sql.Statements.{
  find_chunk, upsert_chunk_row, upsert_entry, get_chunk_blob_id, get_chunk_row, blob_id_row,
}
use v_m_io.Sql.Methods.{working}
use v_m_io.Sql.Methods as Sql
use native.Mathlib.Decide.{ℕ_discrete}
use v_m_io.Blob.Crypto.{Crypto}
use v_m_io.Db.Store.{VmIoDb, Store, upsert, check_lengths}
use v_m_io.Db.Chunks.{
  ChunkEnv, chunk_id, chunk_row, place_blob, upsert_chunk, store_chunk, commit_chunk, settle,
  get_chunk, get_found, open_chunk,
}
use v_m_io.Db.Consistent.{IsConsistent, cipher_of, path_of}
use v_m_io.Db.Life.{
  ChunkCall, empty_store, cut_chunk, upserted, chunk_upserted, chunk_cut, Reached, created,
  then_step,
}
use v_m_io.Db.Life.Safe.{Reached-IsConsistent}
use v_m_io.Db.Life.Rows.{Reached-Disturbed, tampered}
use v_m_io.Db.Life.Bounds.{IsBounded, Disturbed-IsBounded}
use v_m_io.Db.Life.Integrity.{IsAuthentic, Disturbed-get_chunk}
use v_m_io.Db.Race.{overtaken, overtaken_loses}
use v_m_io.Db.Race.Rewrite.{overlapped, overlapped_loses}
use v_m_io.Examples.Stores.{db, db-IsSound, class, key, env, content, idx-IsI64}

abbrev call : ChunkCall
call = record {
  class = class;
  key = key;
  idx = negsuc 3;
  plain = content;
  is_final = true;
  class_fits = omega arith;
  key_fits = omega arith;
  idx_fits = idx-IsI64;
}

-- The disk is full after a byte.
abbrev torn_env : ChunkEnv
torn_env = record env { first = record { dirs_made = true; answer = torn 1 } }

abbrev with_entry : VmIoDb → Store
with_entry d = (upsert working class key (pos 5) (some (pos 9)) none empty_store).1

abbrev half : VmIoDb → Store
half d = cut_chunk d torn_env call (with_entry d)

abbrev full : VmIoDb → Store
full d = (upsert_chunk d env class key (negsuc 3) content true (half d)).1

full-Reached : (d : VmIoDb) → Reached d (full d)
full-Reached d =
    then_step
      (then_step
        (then_step created (upserted working class key (pos 5) (some (pos 9)) none empty_store))
        (chunk_cut torn_env call (with_entry d) refl refl))
      (chunk_upserted env call (half d) refl)

Reached-IsConsistent_example : IsConsistent db (full db)
Reached-IsConsistent_example = Reached-IsConsistent db db-IsSound (full-Reached db)

abbrev forged_disk : Disk
forged_disk path = some (content)

Disturbed-IsBounded_example : IsBounded (record (full db) { disk = forged_disk })
Disturbed-IsBounded_example =
    Disturbed-IsBounded db db-IsSound
      (tampered forged_disk (Reached-Disturbed db (full-Reached db)))

-- A cipher whose tag is the message.
abbrev open_crypto : Crypto
open_crypto = record {
  sha256 = λ s. s;
  hkdf = λ salt ikm info. ikm;
  encrypt = λ key nonce adata s. (s, s);
  decrypt = λ key nonce adata s tag. if is_yes (dec_bytes s tag) then some s else none;
}

open_made :
    (key nonce adata cipher tag plain : Bytes)
    → open_crypto.decrypt key nonce adata cipher tag ≡ some plain
    → open_crypto.encrypt key nonce adata plain ≡ (cipher, tag)
open_made key nonce adata cipher tag plain h = elim (Bool-cases (is_yes (dec_bytes cipher tag))) [
  | inl e ↦ let same = is_yes→ (dec_bytes cipher tag) e in let whole = rw e at h in cc
  | inr e ↦ let whole = rw e at h in cc
]

open_crypto-IsAuthentic : IsAuthentic open_crypto
open_crypto-IsAuthentic = record { made = open_made; tag_binds = λ key nonce adata a b e. e }

abbrev open_db : VmIoDb
open_db = record db { crypto = open_crypto }

read_back :
    get_chunk open_db working true class key (negsuc 3) true (full open_db) ≡ ok (some content)
unfolding upsert check_lengths Sql.upsert upsert_entry cut_chunk upsert_chunk store_chunk
    commit_chunk settle place_blob write Sql.upsert_chunk upsert_chunk_row dec_pair ℕ_discrete
    get_chunk_blob_id dec_chunk_key ℤ-discrete get_chunk get_found open_chunk Sql.get_chunk
    get_chunk_row dec_path id_path encrypt_chunk gen_id decrypt_chunk dec_bytes
read_back = refl

Disturbed-get_chunk_example :
    find_chunk ((class, key), negsuc 3) (full open_db).tables.chunks
    ≡ some (chunk_row open_db (chunk_id open_db class key (negsuc 3) true content) content)
Disturbed-get_chunk_example =
    Disturbed-get_chunk open_db open_crypto-IsAuthentic
      (Reached-Disturbed open_db (full-Reached open_db)) working true class key (negsuc 3) true
      content read_back

-- An old file is where the blob of the content belongs, and no row refers to it.
abbrev stale : Store
stale = record (with_entry db) {
  disk = λ path. some (cipher_of db (chunk_id db class key (negsuc 3) true content) content);
}

stale_ok : (upsert_chunk db env class key (negsuc 3) content true stale).0 ≡ ok tt
unfolding upsert check_lengths Sql.upsert upsert_entry upsert_chunk store_chunk commit_chunk settle
    place_blob Sql.upsert_chunk upsert_chunk_row dec_pair ℕ_discrete get_chunk_blob_id dec_chunk_key
    encrypt_chunk
stale_ok = refl

stale_free :
    blob_id_row
      (chunk_row db (chunk_id db class key (negsuc 3) true content) content).blob_id
      stale.tables
    ≡ false
unfolding blob_id_row upsert check_lengths Sql.upsert upsert_entry
stale_free = refl

overtaken_loses_example :
    ((place_blob env
        (path_of db (chunk_id db class key (negsuc 3) true content))
        (cipher_of db (chunk_id db class key (negsuc 3) true content) content)
        stale.disk).0
      ≡ false)
    × (find_chunk
          ((class, key), negsuc 3)
          (overtaken db env class key (negsuc 3) true content (λ path. true) stale).tables.chunks
        ≡ some (chunk_row db (chunk_id db class key (negsuc 3) true content) content))
    × (get_chunk db working true class key
          (negsuc 3)
          true
          (overtaken db env class key (negsuc 3) true content (λ path. true) stale)
        ≡ err file_system)
overtaken_loses_example =
    overtaken_loses db env class key (negsuc 3) true content (λ path. true) stale refl refl
      stale_free refl stale_ok

abbrev other_content : Bytes
other_content = 7 ∷ []

abbrev row : ChunkRow
row = chunk_row db (chunk_id db class key (negsuc 3) true content) content

abbrev other_row : ChunkRow
other_row = chunk_row db (chunk_id db class key (negsuc 3) true other_content) other_content

-- What the second call meets.
full_facts :
    (find_chunk ((class, key), negsuc 3) (full db).tables.chunks ≡ some row)
    × ((full db).disk (path_of db (chunk_id db class key (negsuc 3) true content))
        ≡ some (cipher_of db (chunk_id db class key (negsuc 3) true content) content))
    × (is_yes (dec_bytes row.blob_id other_row.blob_id) ≡ false)
    × ((upsert_chunk db env class key (negsuc 3) other_content true (full db)).0 ≡ ok tt)
    × ((overlapped db env env class key (negsuc 3) true true content other_content (full db)).0
        ≡ ok tt)
unfolding upsert check_lengths Sql.upsert upsert_entry cut_chunk upsert_chunk store_chunk
    commit_chunk settle place_blob write Sql.upsert_chunk upsert_chunk_row dec_pair ℕ_discrete
    get_chunk_blob_id dec_chunk_key ℤ-discrete dec_path id_path encrypt_chunk gen_id dec_bytes
    overlapped frame le_bytes
full_facts = (refl, refl, refl, refl, refl)

overlapped_loses_example :
    (find_chunk
        ((class, key), negsuc 3)
        (overlapped db env env class key
          (negsuc 3)
          true
          true
          content
          other_content
          (full db)).1.tables.chunks
      ≡ some row)
    × (get_chunk db working true class key
          (negsuc 3)
          true
          (overlapped db env env class key (negsuc 3) true true content other_content (full db)).1
        ≡ err file_system)
overlapped_loses_example =
    overlapped_loses db env env class key (negsuc 3) true true content other_content (full db) refl
      full_facts.0 full_facts.1 (is_no→ (dec_bytes row.blob_id other_row.blob_id) full_facts.2) refl
      full_facts.3 full_facts.4
