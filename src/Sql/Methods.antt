-- ===== src/Sql/Methods.antt =====
-- The methods of `Sql` in rs/v-m-io-db/src/sql.rs. A call into the engine may fail: `Engine` says
-- which do. A method that writes holds the one write connection, so its calls form one step; a
-- transaction that fails or is dropped leaves the tables as they were.
use v_m_io.Common.{
  ℕ, Bool, true, ◌&&◌, ◌||◌, ◌==◌, Option, none, some, List, [], ◌∷◌, ◌++◌, map, keep, ltb,
  if◌then◌else◌, is_yes,
}
use v_m_io.Common.Bytes.{Bytes, dec_bytes}
use v_m_io.Common.Int.{ℤ, pos, ltbℤ, lebℤ, i64_max}
use v_m_io.Common.Sort.{sort}
use v_m_io.Io.{Result, ok, err, sql, fault, constraint, guard, ◌>>=◌, ◌>>◌}
use v_m_io.Sql.Tables.{
  EntryRow, ChunkRow, Tables, VmIoDbEntry, Chunk, Bound, included, excluded, unbounded,
  VmIoDbListFilter, all, key_prefix, modified_at_micros_range, VmIoDbListSort, key_asc, key_desc,
  modified_at_micros_asc, modified_at_micros_desc, entry_pair, chunk_key, same_pair,
}
use v_m_io.Sql.Statements.{
  upsert_entry, upsert_chunk_row, get_chunk_blob_id, get_chunk_row, blob_id_row, get_entry,
  to_entry, select_blob_ids, delete_entries, limit_rows, expired_batch, in_batch, pair_leb,
}

-- The calls of rusqlite: opening the transaction, preparing and reading a query, executing a
-- statement, committing.
pub data Call : Type 0 where
  begin query execute commit : Call

abbrev pub Engine : Type 0
Engine = Call → Bool

abbrev pub working : Engine
working call = true

abbrev pub called : Engine → Call → Result (Unit {0})
called engine call = guard (engine call) (sql fault)

abbrev pub satisfied {ℓ} : {A : Type ℓ} → Option A → Result A
satisfied none = err (sql constraint)
satisfied (some a) = ok a

-- A failed step rolls back.
abbrev pub transact {ℓ} : {A : Type ℓ} → Tables → Result (A × Tables) → Result A × Tables
transact t (ok (a, t')) = (ok a, t')
transact t (err e) = (err e, t)

-- `Sql::upsert`: was the write applied?
unfoldable pub upsert : Engine → EntryRow → Tables → Result Bool × Tables
upsert engine row t = transact t (do
  called engine execute
  (changed, entries) ← satisfied (upsert_entry row t.entries)
  ok (ltb 0 changed, record t { entries = entries }))

abbrev pub drop_same : Bytes → Option Bytes → Option Bytes
drop_same id none = none
drop_same id (some prev) = if is_yes (dec_bytes prev id) then none else some prev

-- The body of the transaction of `Sql::upsert_chunk`.
abbrev pub upsert_chunk_step : Engine → ChunkRow → Tables → Result (Option Bytes × Tables)
upsert_chunk_step engine row t = do
  called engine begin
  called engine query
  let prev = get_chunk_blob_id (chunk_key row) t
  called engine execute
  t' ← satisfied (upsert_chunk_row row t)
  called engine commit
  ok (drop_same row.blob_id prev, t')

-- `Sql::upsert_chunk`: the blob that the chunk had before, if it was another.
unfoldable pub upsert_chunk : Engine → ChunkRow → Tables → Result (Option Bytes) × Tables
upsert_chunk engine row t = transact t (upsert_chunk_step engine row t)

-- `Sql::blob_id_exists`
unfoldable pub blob_id_exists : Engine → Bytes → Tables → Result Bool
blob_id_exists engine id t = do called engine query; ok (blob_id_row id t)

-- The body of the transaction of `Sql::rm`.
abbrev pub rm_step : Engine → Bytes × Bytes → Tables → Result (List Bytes × Tables)
rm_step engine p t = do
  called engine begin
  called engine query
  let out = select_blob_ids (same_pair p) t
  called engine execute
  let deleted = delete_entries (same_pair p) t
  called engine commit
  ok (out, deleted.1)

-- `Sql::rm`: the blobs of the chunks that went.
unfoldable pub rm : Engine → Bytes × Bytes → Tables → Result (List Bytes) × Tables
rm engine p t = transact t (rm_step engine p t)

-- The body of the transaction of `Sql::prune_expired`.
abbrev pub prune_step : Engine → ℤ → ℤ → Tables → Result ((ℕ × List Bytes) × Tables)
prune_step engine now limit t = do
  called engine begin
  called engine query
  let blob_ids = select_blob_ids (in_batch (expired_batch now limit t)) t
  called engine execute
  let deleted = delete_entries (in_batch (expired_batch now limit t)) t
  called engine commit
  ok ((deleted.0, blob_ids), deleted.1)

-- `Sql::prune_expired`: how many entries went, and the blobs of their chunks.
unfoldable pub prune_expired : Engine → ℤ → ℤ → Tables → Result (ℕ × List Bytes) × Tables
prune_expired engine now limit t = transact t (prune_step engine now limit t)

-- `Sql::get`
unfoldable pub get : Engine → Bytes × Bytes → Tables → Result (Option VmIoDbEntry)
get engine p t = do called engine begin; called engine query; ok (get_entry p t)

-- `Sql::get_chunk`
unfoldable pub get_chunk : Engine → (Bytes × Bytes) × ℤ → Tables → Result (Option Chunk)
get_chunk engine k t = do called engine begin; called engine query; ok (get_chunk_row k t)

-- `'*' | '?' | '['`
abbrev pub is_special : ℕ → Bool
is_special c = (c == b'*') || ((c == b'?') || (c == b'['))

-- `glob_prefix_pattern`. The loop goes by characters; the three that it escapes are ASCII, so going
-- by bytes pushes the same bytes.
abbrev pub glob_escape : ℕ → Bytes
glob_escape c = if is_special c then b'[' ∷ c ∷ b']' ∷ [] else c ∷ []

unfoldable pub glob_prefix_pattern : Bytes → Bytes
glob_prefix_pattern [] = b'*' ∷ []
glob_prefix_pattern (c ∷ prefix) = glob_escape c ++ glob_prefix_pattern prefix

-- The `WHERE` clause that a filter adds, after `class = ?1`; `glob pattern text` is the operator.
abbrev pub start_test : Bound → ℤ → Bool
start_test unbounded m = lebℤ (pos 0) m
start_test (included t) m = lebℤ t m
start_test (excluded t) m = ltbℤ t m

abbrev pub end_test : Bound → ℤ → Bool
end_test unbounded m = lebℤ m i64_max
end_test (included t) m = lebℤ m t
end_test (excluded t) m = ltbℤ m t

module _ (glob : Bytes → Bytes → Bool) where
  abbrev pub filter_test : VmIoDbListFilter → EntryRow → Bool
  filter_test all e = true
  filter_test (key_prefix prefix) e = glob (glob_prefix_pattern prefix) e.key
  filter_test (modified_at_micros_range start end) e =
      start_test start e.modified_at_micros && end_test end e.modified_at_micros

-- The `ORDER BY` clause.
abbrev pub sort_leb : VmIoDbListSort → EntryRow → EntryRow → Bool
sort_leb key_asc a b = pair_leb (entry_pair a) (entry_pair b)
sort_leb key_desc a b = pair_leb (entry_pair b) (entry_pair a)
sort_leb modified_at_micros_asc a b = lebℤ a.modified_at_micros b.modified_at_micros
sort_leb modified_at_micros_desc a b = lebℤ b.modified_at_micros a.modified_at_micros

-- `Sql::list`
unfoldable pub list_rows :
    (Bytes → Bytes → Bool) → Bytes → VmIoDbListFilter → VmIoDbListSort → ℤ → Tables → List EntryRow
list_rows glob class filter order limit t = limit_rows limit (
    sort (sort_leb order) (
      keep (λ (e : EntryRow). is_yes (dec_bytes e.class class) && filter_test glob filter e)
        t.entries))

unfoldable pub list :
    Engine
    → (Bytes → Bytes → Bool)
    → Bytes
    → VmIoDbListFilter
    → VmIoDbListSort
    → ℤ
    → Tables
    → Result (List VmIoDbEntry)
list engine glob class filter order limit t = do
  called engine begin
  called engine query
  ok (map (to_entry t) (list_rows glob class filter order limit t))
