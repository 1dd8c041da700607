-- ===== src/Examples/Overlaps.antt =====
-- The theorems on uploads that overlap, with two chunks of one entry.
use v_m_io.Common.{false, [], ◌∷◌, ◌≡◌, refl, true, some, none, arith}
use v_m_io.Common.Bytes.{ascii, dec_bytes, dec_path, dec_pair, le_bytes}
use v_m_io.Common.Int.{pos, negsuc, ℤ-discrete}
use v_m_io.Io.{ok}
use v_m_io.Blob.Frame.{frame}
use v_m_io.Blob.Layout.{FilePath, id_path}
use v_m_io.Blob.Cipher.{encrypt_chunk, gen_id}
use v_m_io.Blob.Disk.{write}
use v_m_io.Sql.Tables.{dec_chunk_key}
use v_m_io.Sql.Statements.{upsert_chunk_row, upsert_entry, get_chunk_blob_id}
use v_m_io.Sql.Methods.{working}
use v_m_io.Sql.Methods as Sql
use native.Mathlib.Decide.{ℕ_discrete}
use v_m_io.Db.Store.{upsert, check_lengths}
use v_m_io.Db.Chunks.{place_blob, commit_chunk, settle, get_chunk}
use v_m_io.Db.Consistent.{IsConsistent}
use v_m_io.Db.Life.{ChunkCall, empty_store}
use v_m_io.Db.Prune.{item, file, end}
use v_m_io.Db.Tasks.{CleanupPass, cleanup_pass}
use v_m_io.Db.Overlap.{
  Upload, Shared, begin_upload, end_upload, ended_upload, begun, ended, swept, spares, spares_item,
  entry_upserted, Interleaved, idle, then_turn,
}
use v_m_io.Db.Overlap.Safe.{Interleaved-IsConsistent, Interleaved-get_chunk}
use v_m_io.Examples.Stores.{db, db-IsSound, class, key, env, content, idx-IsI64}

abbrev first_call : ChunkCall
first_call = record {
  class = class;
  key = key;
  idx = negsuc 3;
  plain = content;
  is_final = true;
  class_fits = omega arith;
  key_fits = omega arith;
  idx_fits = idx-IsI64;
}

abbrev second_call : ChunkCall
second_call = record first_call {
  idx = pos 2;
  plain = 4 ∷ [];
  idx_fits = record { above = omega arith; below = omega arith };
}

abbrev upload : ChunkCall → Upload
upload c = record { env = env; call = c; wrote = true; placed = ok tt }

abbrev with_entry : Shared
with_entry = record {
  store = (upsert working class key (pos 5) (some (pos 9)) none empty_store).1;
  pending = λ k. none;
}

abbrev one_begun : Shared
one_begun = begin_upload db env first_call with_entry

abbrev two_begun : Shared
two_begun = begin_upload db env second_call one_begun

abbrev one_ended : Shared
one_ended = ended_upload db (upload second_call) two_begun

-- The first call is still under way when the second has begun and ended.
second_free : one_begun.pending ((class, key), pos 2) ≡ none
unfolding begin_upload dec_chunk_key dec_pair ℤ-discrete dec_bytes ℕ_discrete
second_free = refl

second_pending : two_begun.pending ((class, key), pos 2) ≡ some (upload second_call)
unfolding begin_upload dec_chunk_key dec_pair ℤ-discrete dec_bytes ℕ_discrete place_blob write
    encrypt_chunk gen_id dec_path id_path upsert frame le_bytes
second_pending = refl

first_pending : one_ended.pending ((class, key), negsuc 3) ≡ some (upload first_call)
unfolding begin_upload dec_chunk_key dec_pair ℤ-discrete dec_bytes ℕ_discrete place_blob write
    encrypt_chunk gen_id dec_path id_path upsert
first_pending = refl

first_ok : (end_upload db (upload first_call) one_ended.store).0 ≡ ok tt
unfolding begin_upload end_upload dec_chunk_key dec_pair ℤ-discrete dec_bytes ℕ_discrete place_blob
    write encrypt_chunk gen_id dec_path id_path upsert check_lengths Sql.upsert upsert_entry
    commit_chunk settle Sql.upsert_chunk upsert_chunk_row get_chunk_blob_id
first_ok = refl

one_ended-Interleaved : Interleaved db one_ended
one_ended-Interleaved =
    then_turn
      (then_turn
        (then_turn
          (then_turn idle (
            entry_upserted working class key (pos 5) (some (pos 9)) none
              (record { store = empty_store; pending = λ k. none })))
          (begun env first_call with_entry refl refl refl))
        (begun env second_call one_begun refl refl second_free))
      (ended (upload second_call) two_begun second_pending)

-- The cleanup finds a file at its root that is young.
abbrev pass : CleanupPass
pass = record {
  has_cutoff = true;
  engine = working;
  removable = λ path. true;
  listing = item (file (some (ascii "db")) false) end;
}

pass_spares : (path : FilePath) → spares path pass.listing db.root_dir ≡ true
unfolding spares spares_item
pass_spares path = refl

abbrev cleaned_up : Shared
cleaned_up = record one_ended { store = cleanup_pass db pass one_ended.store }

cleaned_up-Interleaved : Interleaved db cleaned_up
cleaned_up-Interleaved =
    then_turn one_ended-Interleaved (swept pass one_ended (λ k q e. pass_spares _))

Interleaved-IsConsistent_example : IsConsistent db cleaned_up.store
Interleaved-IsConsistent_example = Interleaved-IsConsistent db db-IsSound cleaned_up-Interleaved

Interleaved-get_chunk_example :
    get_chunk db working true class key
      (negsuc 3)
      true
      (end_upload db (upload first_call) one_ended.store).1
    ≡ ok (some content)
Interleaved-get_chunk_example =
    Interleaved-get_chunk db db-IsSound one_ended-Interleaved (upload first_call) first_pending
      first_ok
