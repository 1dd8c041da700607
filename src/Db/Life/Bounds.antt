-- ===== src/Db/Life/Bounds.antt =====
-- The lengths that rs/v-m-io-db/src/lib.rs admits, and the rows of a store.
use v_m_io.Common.{◌≤◌, ◌≡◌, ap, Bool, false, arith, length}
use v_m_io.Common.Bytes.{Bytes}
use v_m_io.Common.Int.{ℤ, pos, ◌≤ℤ◌}
use v_m_io.Io.{ok}
use v_m_io.Sql.Tables.{EntryRow, ChunkRow}
use v_m_io.Sql.Rows.{Rows}
use v_m_io.Db.Store.{VmIoDb, Store, metadata_length, check_lengths}
use v_m_io.Db.Chunks.{chunk_id, chunk_row, chunk_size, check_size}
use v_m_io.Db.Consistent.{IsSound, length-cipher_of}
use v_m_io.Db.Life.Rows.{Disturbed, Disturbed-Rows}

-- The lengths of an entry, in bytes.
abbrev pub EntryBounds : EntryRow → Type 0
EntryBounds e = (length e.class ≤ 256) × (length e.key ≤ 1024) × (metadata_length e.metadata ≤ 4096)

-- A chunk has at most 5 MiB, and but for the last of a file just that.
abbrev pub ChunkBounds : ChunkRow → Type 0
ChunkBounds c = (c.size ≤ℤ pos chunk_size) × (c.is_final ≡ false → c.size ≡ pos chunk_size)

abbrev pub IsBounded : Store → Type 0
IsBounded s = Rows EntryBounds ChunkBounds s.tables

check_lengths-EntryBounds :
    (row : EntryRow) → check_lengths row.class row.key row.metadata ≡ ok tt → EntryBounds row
unfolding check_lengths
check_lengths-EntryBounds row h = (ground arith, ground arith, ground arith)

check_size-full :
    (is_final : Bool) (plain : Bytes)
    → check_size is_final plain ≡ ok tt
    → (length plain ≤ chunk_size) × (is_final ≡ false → length plain ≡ chunk_size)
check_size-full is_final plain h = (ground arith, λ e. ground arith)

module _ (db : VmIoDb) (sound : IsSound db) where
  chunk_row-ChunkBounds :
      (class key : Bytes) (idx : ℤ) (is_final : Bool) (plain : Bytes)
      → check_size is_final plain ≡ ok tt
      → ChunkBounds (chunk_row db (chunk_id db class key idx is_final plain) plain)
  chunk_row-ChunkBounds class key idx is_final plain h =
      let (small, full) = check_size-full is_final plain h in
      let same = length-cipher_of db sound (chunk_id db class key idx is_final plain) plain in
      (omega arith, λ e. ap ℤ.pos (let whole = full e in omega arith))

  -- With sound crates, in every store that calls, tasks, crashes and changed files make of an
  -- empty one, each entry has a class of at most 256 bytes, a key of at most 1024 and metadata of
  -- at most 4096, and each chunk row a size of at most 5 MiB, and of just that unless it is final.
  pub Disturbed-IsBounded : {s : Store} → Disturbed db s → IsBounded s
  Disturbed-IsBounded =
      Disturbed-Rows db EntryBounds ChunkBounds check_lengths-EntryBounds chunk_row-ChunkBounds
