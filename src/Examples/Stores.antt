-- ===== src/Examples/Stores.antt =====
-- The theorems on the store, at a store with one entry.
use v_m_io.Common.{◌≡◌, ◌≢◌, refl, true, false, not, none, some, [], ◌∷◌, arith}
use v_m_io.Common.Bytes.{Bytes, ascii, dec_pair}
use v_m_io.Common.Int.{pos, negsuc, IsI64, ℤ-discrete}
use v_m_io.Io.{ok, err, finality_mismatch}
use v_m_io.Blob.Disk.{written, not_found, write}
use v_m_io.Sql.Tables.{EntryRow, ChunkRow, dec_chunk_key}
use v_m_io.Sql.Methods.{Engine, Call, begin, query, execute, commit, working}
use v_m_io.Sql.Methods as Sql
use v_m_io.Sql.Statements.{upsert_chunk_row, get_chunk_blob_id, find_chunk}
use native.Mathlib.Decide.{ℕ_discrete}
use v_m_io.Db.Store.{VmIoDb, Store, upsert}
use v_m_io.Db.Chunks.{
  ChunkEnv, upsert_chunk, store_chunk, commit_chunk, settle, place_blob, get_chunk, chunk_row,
  chunk_id,
}
use v_m_io.Db.Prune.{
  PruneRound, done, cut, prune_backlog, Listing, item, dir, file, end, broken, cleanup_dir,
}
use v_m_io.Db.Consistent.{IsSound, IsConsistent}
use v_m_io.Db.Consistent.Methods.{upsert_chunk-IsConsistent}
use v_m_io.Db.Consistent.Tasks.{upsert-IsConsistent}
use v_m_io.Db.Consistent.Reads.{get_chunk_found, get_chunk-upsert_chunk}
use v_m_io.Db.Consistent.Cleanup.{Swept, cleanup_dir-Swept}
use v_m_io.Db.Draining.{Works, Drained, prune_backlog_ends, prune_backlog_drains}
use v_m_io.Examples.Crates.{toy_crypto, toy_crypto-IsCipher, toy_crypto-IsCollisionFree, plain_hex}

abbrev pub db : VmIoDb
db = record {
  crypto = toy_crypto;
  hex = plain_hex;
  root_dir = ascii "root" ∷ [];
  blob_key = 1 ∷ 2 ∷ [];
}

pub db-IsSound : IsSound db
db-IsSound = record {
  cipher = toy_crypto-IsCipher;
  collision_free = toy_crypto-IsCollisionFree;
  hex_injective = λ a b e. e;
}

abbrev pub class : Bytes
class = ascii "img"

abbrev pub key : Bytes
key = ascii "cat"

abbrev pub entry : EntryRow
entry = record {
  class = class;
  key = key;
  modified_at_micros = pos 5;
  expires_at_micros = some (pos 9);
  metadata = none;
}

abbrev start : Store
start = record { tables = record { entries = entry ∷ []; chunks = [] }; disk = λ path. none }

start-IsConsistent : IsConsistent db start
start-IsConsistent = record {
  tables = record {
    entries_key = (tt, tt);
    modified_unique = (tt, tt);
    chunks_key = tt;
    parents = tt;
  };
  backed = tt;
  intact = record { at_place = λ id plain content fits hash_is e l. cc };
}

abbrev pub env : ChunkEnv
env = record {
  engine = working;
  stat_works = true;
  first = record { dirs_made = true; answer = not_found };
  second = record { dirs_made = true; answer = written };
  removable = λ path. true;
}

-- The commit fails.
abbrev bad_commit : Engine
bad_commit begin = true
bad_commit query = true
bad_commit execute = true
bad_commit commit = false

abbrev bad_env : ChunkEnv
bad_env = record env { engine = bad_commit }

pub idx-IsI64 : IsI64 (negsuc 3)
idx-IsI64 = record { above = omega arith; below = omega arith }

abbrev pub content : Bytes
content = 10 ∷ 20 ∷ 30 ∷ []

abbrev stored : Store
stored = (upsert_chunk db env class key (negsuc 3) content true start).1

stored_ok : (upsert_chunk db env class key (negsuc 3) content true start).0 ≡ ok tt
unfolding upsert_chunk store_chunk commit_chunk settle place_blob write Sql.upsert_chunk
    upsert_chunk_row dec_pair ℕ_discrete get_chunk_blob_id
stored_ok = refl

get_chunk-upsert_chunk_example :
    get_chunk db working true class key
      (negsuc 3)
      true
      (upsert_chunk db env class key (negsuc 3) content true start).1
    ≡ ok (some content)
get_chunk-upsert_chunk_example =
    get_chunk-upsert_chunk db db-IsSound env refl class key (negsuc 3) content true start
      (omega arith) (omega arith) idx-IsI64 start-IsConsistent stored_ok

stored-IsConsistent : IsConsistent db stored
stored-IsConsistent =
    upsert_chunk-IsConsistent db db-IsSound env refl class key (negsuc 3) content true start
      (omega arith) (omega arith) idx-IsI64 start-IsConsistent

abbrev stored_row : ChunkRow
stored_row = chunk_row db (chunk_id db class key (negsuc 3) true content) content

stored_found : find_chunk ((class, key), negsuc 3) stored.tables.chunks ≡ some stored_row
unfolding upsert_chunk store_chunk commit_chunk settle place_blob write Sql.upsert_chunk
    upsert_chunk_row dec_pair ℕ_discrete get_chunk_blob_id dec_chunk_key ℤ-discrete
stored_found = refl

get_chunk_found_example :
    (plain : Bytes) × (stored_row.hash ≡ db.crypto.sha256 plain)
    × (get_chunk db working true class key (negsuc 3) stored_row.is_final stored ≡ ok (some plain))
    × (get_chunk db working true class key (negsuc 3) (not stored_row.is_final) stored
        ≡ err finality_mismatch)
get_chunk_found_example =
    get_chunk_found db db-IsSound stored stored-IsConsistent class key (negsuc 3) stored_row
      stored_found

upsert-IsConsistent_example :
    IsConsistent db (upsert working class (ascii "dog") (pos 6) none (some content) stored).1
upsert-IsConsistent_example =
    upsert-IsConsistent db stored stored-IsConsistent working class (ascii "dog") (pos 6) none
      (some content)

abbrev round : PruneRound
round = record { now_micros = some (pos 9); engine = working; removable = λ path. true }

prune_backlog_ends_example : (prune_backlog db (round ∷ round ∷ []) start).0 ≢ cut
prune_backlog_ends_example = prune_backlog_ends db (round ∷ round ∷ []) start (omega arith)

round-Works : Works (pos 9) round
round-Works = record { clock = refl; engine = λ call. refl }

prune_backlog_drains_example :
    ((prune_backlog db (round ∷ round ∷ []) start).0 ≡ done)
    × Drained (pos 9) start.tables (prune_backlog db (round ∷ round ∷ []) start).1.tables
prune_backlog_drains_example =
    prune_backlog_drains db (pos 9) (round ∷ round ∷ []) start (omega arith)
      (round-Works, (round-Works, tt)) start-IsConsistent.tables

-- A pass over a shard directory that holds a stale file.
abbrev listing : Listing
listing = item (dir (some (ascii "cafe")) true (item (file (some (ascii "cafe")) true) end)) broken

cleanup_dir-Swept_example :
    Swept db stored.tables stored.disk
      (cleanup_dir db working (λ path. true) stored.tables listing db.root_dir 2 stored.disk).1
cleanup_dir-Swept_example =
    cleanup_dir-Swept db working (λ path. true) stored.tables listing db.root_dir 2 stored.disk
