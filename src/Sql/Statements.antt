-- ===== src/Sql/Statements.antt =====
-- The statements of rs/v-m-io-db/src/sql/*.sql and of sql.rs, each as a function of the tables.
-- `none` stands for a violated constraint, which leaves the tables as they were.
use mathlib.Core.Option
use v_m_io.Common.{
  ℕ, ◌&&◌, Bool, true, false, not, Option, none, some, List, [], ◌∷◌, ◌++◌, map, length, take, keep,
  find, any, if◌then◌else◌,
}
use v_m_io.Common.Bytes.{Bytes, dec_bytes, lex_leb}
use v_m_io.Common.Int.{ℤ, pos, negsuc, ltbℤ, lebℤ, eqbℤ}
use v_m_io.Common.Sort.{sort}
use v_m_io.Common.{is_yes}
use v_m_io.Sql.Tables.{
  EntryRow, ChunkRow, Tables, VmIoDbEntry, Chunk, entry_pair, chunk_pair, same_pair, chunk_key,
  same_chunk,
}

-- Another entry holds the row's `modified_at_micros`.
abbrev pub takes_modified : EntryRow → EntryRow → Bool
takes_modified row e =
    eqbℤ e.modified_at_micros row.modified_at_micros
    && not (same_pair (entry_pair row) (entry_pair e))

abbrev pub replace_entry : EntryRow → EntryRow → EntryRow
replace_entry row e = if same_pair (entry_pair row) (entry_pair e) then row else e

abbrev pub find_entry : Bytes × Bytes → List EntryRow → Option EntryRow
find_entry p = find (λ e. same_pair p (entry_pair e))

abbrev pub find_chunk : (Bytes × Bytes) × ℤ → List ChunkRow → Option ChunkRow
find_chunk k = find (λ c. same_chunk k (chunk_key c))

-- upsert.sql: the count of changed rows, and the table. A conflict on the primary key turns the
-- insert into an update, which applies if it is strictly newer.
unfoldable pub upsert_entry : EntryRow → List EntryRow → Option (ℕ × List EntryRow)
upsert_entry row entries =
    let clash = any (takes_modified row) entries in
    elim (find_entry (entry_pair row) entries) [
      | none ↦ if clash then none else some (1, entries ++ (row ∷ []))
      | some old ↦
          if ltbℤ old.modified_at_micros row.modified_at_micros
          then if clash then none else some (1, map (replace_entry row) entries)
          else some (0, entries)
    ]

abbrev pub replace_chunk : ChunkRow → ChunkRow → ChunkRow
replace_chunk row c = if same_chunk (chunk_key row) (chunk_key c) then row else c

-- upsert_chunk.sql, under the foreign key.
unfoldable pub upsert_chunk_row : ChunkRow → Tables → Option Tables
upsert_chunk_row row t =
    if any (λ e. same_pair (chunk_pair row) (entry_pair e)) t.entries
    then elim (find_chunk (chunk_key row) t.chunks) [
      | none ↦ some (record t { chunks = t.chunks ++ (row ∷ []) })
      | some old ↦ some (record t { chunks = map (replace_chunk row) t.chunks })
    ]
    else none

-- get_chunk_blob_id.sql
unfoldable pub get_chunk_blob_id : (Bytes × Bytes) × ℤ → Tables → Option Bytes
get_chunk_blob_id k t = Option.map (λ (c : ChunkRow). c.blob_id) (find_chunk k t.chunks)

-- get_chunk.sql
abbrev pub to_chunk : ChunkRow → Chunk
to_chunk c = record { hash = c.hash; tag = c.tag; size = c.size; is_final = c.is_final }

unfoldable pub get_chunk_row : (Bytes × Bytes) × ℤ → Tables → Option Chunk
get_chunk_row k t = Option.map to_chunk (find_chunk k t.chunks)

-- blob_id_exists.sql
unfoldable pub blob_id_row : Bytes → Tables → Bool
blob_id_row id t = any (λ (c : ChunkRow). is_yes (dec_bytes id c.blob_id)) t.chunks

-- The columns of get_entry.sql and of the listing, `chunk_count` by its subquery.
unfoldable pub chunk_count : Bytes × Bytes → Tables → ℤ
chunk_count p t = pos (length (keep (λ c. same_pair p (chunk_pair c)) t.chunks))

abbrev pub to_entry : Tables → EntryRow → VmIoDbEntry
to_entry t e = record {
  class = e.class;
  key = e.key;
  modified_at_micros = e.modified_at_micros;
  expires_at_micros = e.expires_at_micros;
  metadata = e.metadata;
  chunk_count = chunk_count (entry_pair e) t;
}

-- get_entry.sql
unfoldable pub get_entry : Bytes × Bytes → Tables → Option VmIoDbEntry
get_entry p t = Option.map (to_entry t) (find_entry p t.entries)

-- `SELECT blob_id FROM entry_file_chunks WHERE` the pair is one of those
abbrev pub select_blob_ids : (Bytes × Bytes → Bool) → Tables → List Bytes
select_blob_ids p t = map (λ (c : ChunkRow). c.blob_id) (keep (λ c. p (chunk_pair c)) t.chunks)

-- `DELETE FROM entries WHERE` the pair is one of those; ON DELETE CASCADE takes the chunks of the
-- entries that went.
unfoldable pub delete_entries : (Bytes × Bytes → Bool) → Tables → ℕ × Tables
delete_entries p t =
    let gone = keep (λ e. p (entry_pair e)) t.entries in
    (
      length gone,
      record {
        entries = keep (λ e. not (p (entry_pair e))) t.entries;
        chunks = keep (λ c. not (any (λ e. same_pair (chunk_pair c) (entry_pair e)) gone)) t.chunks;
      },
    )

-- `LIMIT`: a negative limit is none.
abbrev pub limit_rows {ℓ} : {A : Type ℓ} → ℤ → List A → List A
limit_rows (pos n) rows = take n rows
limit_rows (negsuc n) rows = rows

-- `expires_at_micros IS NOT NULL AND expires_at_micros <= now`
abbrev pub expired : ℤ → EntryRow → Bool
expired now e = elim e.expires_at_micros [ none ↦ false | some at ↦ lebℤ at now ]

abbrev pub pair_leb : Bytes × Bytes → Bytes × Bytes → Bool
pair_leb p q = if is_yes (dec_bytes p.0 q.0) then lex_leb p.1 q.1 else lex_leb p.0 q.0

abbrev pub optional_leb : Option ℤ → Option ℤ → Bool
optional_leb none b = true
optional_leb (some a) none = false
optional_leb (some a) (some b) = lebℤ a b

-- `ORDER BY expires_at_micros, class, key`; NULL comes first
abbrev pub expiry_leb : EntryRow → EntryRow → Bool
expiry_leb a b =
    let earlier = optional_leb a.expires_at_micros b.expires_at_micros in
    let later = optional_leb b.expires_at_micros a.expires_at_micros in
    if earlier then (if later then pair_leb (entry_pair a) (entry_pair b) else true) else false

-- The subquery that prune_expired.sql and prune_expired_blob_ids.sql share.
unfoldable pub expired_batch : ℤ → ℤ → Tables → List EntryRow
expired_batch now limit t = limit_rows limit (sort expiry_leb (keep (expired now) t.entries))

-- `(class, key) IN` the subquery
abbrev pub in_batch : List EntryRow → Bytes × Bytes → Bool
in_batch batch p = any (λ e. same_pair p (entry_pair e)) batch
