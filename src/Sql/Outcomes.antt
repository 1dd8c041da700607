-- ===== src/Sql/Outcomes.antt =====
-- What a successful upsert did to its table: upsert.sql and upsert_chunk.sql, case by case.
use v_m_io.Common.{
  ℕ, ◌≡◌, ◌⊎◌, true, false, none, some, List, [], ◌∷◌, ◌++◌, map, arith, any, Bool-cases,
  Option-cases, inl, inr, is_yes→,
}
use v_m_io.Common.Bytes.{dec_pair}
use v_m_io.Common.Int.{ltbℤ}
use v_m_io.Sql.Tables.{
  EntryRow, ChunkRow, Tables, entry_pair, chunk_pair, chunk_key, same_pair, same_chunk,
  dec_chunk_key,
}
use v_m_io.Sql.Statements.{
  takes_modified, replace_entry, replace_chunk, find_entry, find_chunk, upsert_entry,
  upsert_chunk_row,
}

pub replace_entry-pair : (row e : EntryRow) → entry_pair (replace_entry row e) ≡ entry_pair e
replace_entry-pair row e = elim (Bool-cases (same_pair (entry_pair row) (entry_pair e))) [
  | inl s ↦ rw s (is_yes→ (dec_pair (entry_pair row) (entry_pair e)) s)
  | inr s ↦ rw s
]

pub replace_chunk-key : (row c : ChunkRow) → chunk_key (replace_chunk row c) ≡ chunk_key c
replace_chunk-key row c = elim (Bool-cases (same_chunk (chunk_key row) (chunk_key c))) [
  | inl s ↦ rw s (is_yes→ (dec_chunk_key (chunk_key row) (chunk_key c)) s)
  | inr s ↦ rw s
]

-- What a successful upsert did: an insert, an update by a newer row, or nothing.
pub record Inserted (row : EntryRow) (old : List EntryRow) (n : ℕ) (new : List EntryRow)
    : Type 0 where
  pub absent : find_entry (entry_pair row) old ≡ none
  pub no_clash : any (takes_modified row) old ≡ false
  pub one : n ≡ 1
  pub result : new ≡ old ++ (row ∷ [])

pub record Updated (row : EntryRow) (old : List EntryRow) (n : ℕ) (new : List EntryRow)
    : Type 0 where
  pub before : EntryRow
  pub present : find_entry (entry_pair row) old ≡ some before
  pub newer : ltbℤ before.modified_at_micros row.modified_at_micros ≡ true
  pub no_clash : any (takes_modified row) old ≡ false
  pub one : n ≡ 1
  pub result : new ≡ map (replace_entry row) old

pub record Superseded (row : EntryRow) (old : List EntryRow) (n : ℕ) (new : List EntryRow)
    : Type 0 where
  pub before : EntryRow
  pub present : find_entry (entry_pair row) old ≡ some before
  pub not_newer : ltbℤ before.modified_at_micros row.modified_at_micros ≡ false
  pub zero' : n ≡ 0
  pub result : new ≡ old

abbrev pub Outcome : EntryRow → List EntryRow → ℕ → List EntryRow → Type 0
Outcome row old n new = Inserted row old n new ⊎ Updated row old n new ⊎ Superseded row old n new

pub upsert_entry-Outcome :
    (row : EntryRow) (old : List EntryRow) (n : ℕ) (new : List EntryRow)
    → upsert_entry row old ≡ some (n, new)
    → Outcome row old n new
unfolding upsert_entry
upsert_entry-Outcome row old n new h = elim (Option-cases (find_entry (entry_pair row) old)) [
  | inl e ↦
      inl
        (record { absent = e; no_clash = ground arith; one = ground arith; result = ground arith })
  | inr (b, e) ↦ elim (Bool-cases (ltbℤ b.modified_at_micros row.modified_at_micros)) [
    | inl lt ↦ inr (
        inl (record {
          before = b;
          present = e;
          newer = lt;
          no_clash = ground arith;
          one = ground arith;
          result = ground arith;
        }))
    | inr ge ↦ inr (
        inr (record {
          before = b;
          present = e;
          not_newer = ge;
          zero' = ground arith;
          result = ground arith;
        }))
  ]
]

-- What a successful upsert of a chunk did: the entry is there, and the row is added or replaced.
pub record ChunkAdded (row : ChunkRow) (t t' : Tables) : Type 0 where
  pub absent : find_chunk (chunk_key row) t.chunks ≡ none
  pub parent : any (λ e. same_pair (chunk_pair row) (entry_pair e)) t.entries ≡ true
  pub result : t' ≡ record t { chunks = t.chunks ++ (row ∷ []) }

pub record ChunkReplaced (row : ChunkRow) (t t' : Tables) : Type 0 where
  pub before : ChunkRow
  pub present : find_chunk (chunk_key row) t.chunks ≡ some before
  pub parent : any (λ e. same_pair (chunk_pair row) (entry_pair e)) t.entries ≡ true
  pub result : t' ≡ record t { chunks = map (replace_chunk row) t.chunks }

abbrev pub ChunkOutcome : ChunkRow → Tables → Tables → Type 0
ChunkOutcome row t t' = ChunkAdded row t t' ⊎ ChunkReplaced row t t'

pub upsert_chunk_row-Outcome :
    (row : ChunkRow) (t t' : Tables) → upsert_chunk_row row t ≡ some t' → ChunkOutcome row t t'
unfolding upsert_chunk_row
upsert_chunk_row-Outcome row t t' h = elim (Option-cases (find_chunk (chunk_key row) t.chunks)) [
  | inl e ↦ inl (record { absent = e; parent = ground arith; result = ground arith })
  | inr (b, e) ↦
      inr (record { before = b; present = e; parent = ground arith; result = ground arith })
]
