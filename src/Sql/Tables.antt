-- ===== src/Sql/Tables.antt =====
-- The two tables of rs/v-m-io-db/src/sql/schema.sql, and the types of rs/v-m-io-db that carry
-- their rows. A table is the list of its rows, in no order that a statement relies on.
use v_m_io.Common.{◌≡◌, Bool, true, Option, List, [], All, any, is_yes}
use v_m_io.Common.Bytes.{Bytes, dec_pair}
use v_m_io.Common.Unique.{Unique}
use v_m_io.Common.Int.{ℤ, ℤ-discrete}

-- TABLE entries
pub record EntryRow : Type 0 where
  pub class : Bytes
  pub key : Bytes
  pub modified_at_micros : ℤ
  pub expires_at_micros : Option ℤ
  pub metadata : Option Bytes

-- TABLE entry_file_chunks
pub record ChunkRow : Type 0 where
  pub class : Bytes
  pub key : Bytes
  pub idx : ℤ
  pub blob_id : Bytes
  pub hash : Bytes
  pub tag : Bytes
  pub size : ℤ
  pub is_final : Bool

pub record Tables : Type 0 where
  pub entries : List EntryRow
  pub chunks : List ChunkRow

abbrev pub empty : Tables
empty = record { entries = []; chunks = [] }

-- `VmIoDbEntry`
pub record VmIoDbEntry : Type 0 where
  pub class : Bytes
  pub key : Bytes
  pub modified_at_micros : ℤ
  pub expires_at_micros : Option ℤ
  pub metadata : Option Bytes
  pub chunk_count : ℤ

-- `Chunk`
pub record Chunk : Type 0 where
  pub hash : Bytes
  pub tag : Bytes
  pub size : ℤ
  pub is_final : Bool

-- `std::ops::Bound<i64>`
pub data Bound : Type 0 where
  included : ℤ → Bound
  excluded : ℤ → Bound
  unbounded : Bound

-- `VmIoDbListFilter`
pub data VmIoDbListFilter : Type 0 where
  all : VmIoDbListFilter
  key_prefix : Bytes → VmIoDbListFilter
  modified_at_micros_range : Bound → Bound → VmIoDbListFilter

-- `VmIoDbListSort`
pub data VmIoDbListSort : Type 0 where
  key_asc key_desc modified_at_micros_asc modified_at_micros_desc : VmIoDbListSort

-- (class, key), the primary key of an entry and the foreign key of a chunk.
abbrev pub entry_pair : EntryRow → Bytes × Bytes
entry_pair e = (e.class, e.key)

abbrev pub chunk_pair : ChunkRow → Bytes × Bytes
chunk_pair c = (c.class, c.key)

abbrev pub same_pair : Bytes × Bytes → Bytes × Bytes → Bool
same_pair p q = is_yes (dec_pair p q)

-- (class, key, idx), the primary key of a chunk.
abbrev pub chunk_key : ChunkRow → (Bytes × Bytes) × ℤ
chunk_key c = (chunk_pair c, c.idx)

unfoldable pub dec_chunk_key : Discrete ((Bytes × Bytes) × ℤ)
unfolding dec_pair
dec_chunk_key = hlevel (dec_pair, ℤ-discrete)

abbrev pub same_chunk : (Bytes × Bytes) × ℤ → (Bytes × Bytes) × ℤ → Bool
same_chunk p q = is_yes (dec_chunk_key p q)

-- The constraints of the schema: the primary keys, the unique column and the foreign key.
pub record IsWellFormed (t : Tables) : Type 0 where
  pub entries_key : Unique entry_pair t.entries
  pub modified_unique : Unique (λ (e : EntryRow). e.modified_at_micros) t.entries
  pub chunks_key : Unique chunk_key t.chunks
  pub parents :
      All (λ c. any (λ e. same_pair (chunk_pair c) (entry_pair e)) t.entries ≡ true) t.chunks
