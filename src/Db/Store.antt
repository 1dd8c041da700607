-- ===== src/Db/Store.antt =====
-- `VmIoDb` of rs/v-m-io-db/src/lib.rs: its parts, its state, and the methods on entries. A call
-- takes the state and gives its result with the state after it.
use v_m_io.Common.{ℕ, Bool, not, Option, none, some, List, [], ◌∷◌, length, ltb, if◌then◌else◌}
use v_m_io.Common.Bytes.{Bytes}
use v_m_io.Common.Int.{ℤ}
use v_m_io.Io.{Result, ok, err, class_too_long, key_too_long, metadata_too_long, guard, ◌>>◌, ◌>>=◌}
use v_m_io.Blob.Crypto.{Crypto, derive_root}
use v_m_io.Blob.Layout.{Hex, FilePath, id_path}
use v_m_io.Blob.Disk.{Disk, set_file}
use v_m_io.Sql.Tables.{Tables, VmIoDbEntry, VmIoDbListFilter, VmIoDbListSort}
use v_m_io.Sql.Methods.{Engine}
use v_m_io.Sql.Methods as Sql
use v_m_io.Sql.Open.{OpenCall}
use v_m_io.Sql.Open as Open

-- What does not change: the root directory and the blob sub key, with the crates in use.
pub record VmIoDb : Type 0 where
  pub crypto : Crypto
  pub hex : Hex
  pub root_dir : FilePath
  pub blob_key : Bytes

-- What the methods and the background tasks change.
pub record Store : Type 0 where
  pub tables : Tables
  pub disk : Disk

-- `VmIoDb::new`: the root directory is made, the master key is split, the database is opened under
-- its sub key, and only the blob sub key is kept. `made` is what `create_dir_all` gives, and
-- `answers` what the calls of `Sql::new` do. The two tasks that it spawns are in Db/Tasks.
unfoldable pub new :
    Crypto → Hex → Result (Unit {0}) → (OpenCall → Bool) → FilePath → Bytes → Result VmIoDb
unfolding derive_root Open.new
new crypto hex made answers root_dir encryption_key = do
  u ← made
  let keys = derive_root crypto encryption_key
  sql ← (Open.new answers keys.sqlite).0
  ok (record { crypto = crypto; hex = hex; root_dir = root_dir; blob_key = keys.blob })

abbrev pub blob_path : VmIoDb → Bytes → FilePath
blob_path db id = id_path db.hex db.root_dir id

-- The call returns what the method of `Sql` did to the tables.
abbrev pub with_tables {ℓ} : {A : Type ℓ} → Store → Result A × Tables → Result A × Store
with_tables s (r, t) = (r, record s { tables = t })

abbrev pub metadata_length : Option Bytes → ℕ
metadata_length none = 0
metadata_length (some metadata) = length metadata

-- The guards of `VmIoDb::upsert`.
unfoldable pub check_lengths : Bytes → Bytes → Option Bytes → Result (Unit {0})
check_lengths class key metadata = do
  guard (not (ltb 256 (length class))) class_too_long
  guard (not (ltb 1024 (length key))) key_too_long
  guard (not (ltb 4096 (metadata_length metadata))) metadata_too_long

abbrev pub or_else {ℓ} :
    {A : Type ℓ} → Store → Result (Unit {0}) → Result A × Store → Result A × Store
or_else s (ok u) r = r
or_else s (err e) r = (err e, s)

-- `VmIoDb::upsert`
unfoldable pub upsert :
    Engine → Bytes → Bytes → ℤ → Option ℤ → Option Bytes → Store → Result Bool × Store
unfolding check_lengths
upsert engine class key modified_at_micros expires_at_micros metadata s =
    or_else s (check_lengths class key metadata) (
      with_tables s (
        Sql.upsert engine
          (record {
            class = class;
            key = key;
            modified_at_micros = modified_at_micros;
            expires_at_micros = expires_at_micros;
            metadata = metadata;
          })
          s.tables))

-- `VmIoDb::get`
unfoldable pub get : Engine → Bytes → Bytes → Store → Result (Option VmIoDbEntry)
get engine class key s = Sql.get engine (class, key) s.tables

-- `VmIoDb::list`
unfoldable pub list :
    Engine
    → (Bytes → Bytes → Bool)
    → Bytes
    → VmIoDbListFilter
    → VmIoDbListSort
    → ℤ
    → Store
    → Result (List VmIoDbEntry)
list engine glob class filter order limit s = Sql.list engine glob class filter order limit s.tables

-- Best effort removal of a file: `removable` says which removals work.
abbrev pub remove_file : (FilePath → Bool) → FilePath → Disk → Disk
remove_file removable path disk = if removable path then set_file disk path none else disk

-- The loops of `rm` and of `prune_backlog` over the blobs of the rows that went.
unfoldable pub remove_blobs : VmIoDb → (FilePath → Bool) → List Bytes → Disk → Disk
remove_blobs db removable [] disk = disk
remove_blobs db removable (id ∷ ids) disk =
    remove_blobs db removable ids (remove_file removable (blob_path db id) disk)

-- `VmIoDb::rm`
abbrev pub after_rm :
    VmIoDb → (FilePath → Bool) → Store → Result (List Bytes) × Tables → Result (Unit {0}) × Store
after_rm db removable s (ok ids, t) =
    (ok tt, record { tables = t; disk = remove_blobs db removable ids s.disk })
after_rm db removable s (err e, t) = (err e, record s { tables = t })

unfoldable pub rm :
    VmIoDb → Engine → (FilePath → Bool) → Bytes → Bytes → Store → Result (Unit {0}) × Store
rm db engine removable class key s = after_rm db removable s (Sql.rm engine (class, key) s.tables)
