-- ===== src/Examples/Blobs.antt =====
-- The theorems on blobs, at concrete chunks.
use v_m_io.Common.{
  List, ◌<◌, ◌≡◌, refl, Bool, true, false, none, some, [], ◌∷◌, ◌++◌, arith, All, ltb,
  if◌then◌else◌,
}
use v_m_io.Common.Bytes.{Bytes, ascii}
use v_m_io.Common.Int.{negsuc}
use v_m_io.Io.{ok}
use v_m_io.Blob.Layout.{FilePath, shards, id_path}
use v_m_io.Blob.Frame.{ChunkId, IsMachine}
use v_m_io.Blob.Cipher.{gen_id_injective}
use v_m_io.Blob.Disk.{Disk, Round, torn, not_found, write, Wrote, write-Wrote}
use v_m_io.Sql.Statements.{blob_id_row}
use v_m_io.Sql.Methods.{working}
use v_m_io.Db.Store.{VmIoDb, blob_path}
use v_m_io.Db.Prune.{cleanup_dir}
use v_m_io.Db.Walk.{lone_file, cleanup_dir-reaches}
use v_m_io.Examples.Crates.{toy_crypto, toy_crypto-IsCollisionFree, toy_hex, toy_hex-IsHex}

abbrev photo : ChunkId
photo = record {
  class = ascii "img";
  key = ascii "cat.png";
  idx = negsuc 0;
  hash = 7 ∷ 8 ∷ [];
  is_final = true;
}

photo-IsMachine : IsMachine photo
photo-IsMachine = record {
  class_fits = omega arith;
  key_fits = omega arith;
  idx_fits = record { above = omega arith; below = omega arith };
}

gen_id_injective_example : photo ≡ photo
gen_id_injective_example =
    gen_id_injective toy_crypto toy_crypto-IsCollisionFree photo photo (1 ∷ 2 ∷ []) photo-IsMachine
      photo-IsMachine refl

abbrev sixteen : Bytes
sixteen = 0 ∷ 255 ∷ 16 ∷ 3 ∷ 4 ∷ 5 ∷ 6 ∷ 7 ∷ 8 ∷ 9 ∷ 10 ∷ 11 ∷ 12 ∷ 13 ∷ 14 ∷ 15 ∷ []

abbrev some_id : Bytes
some_id = sixteen ++ sixteen

abbrev all_small : Bytes → Bool
all_small [] = true
all_small (b ∷ s) = let rest = all_small s in if ltb b 256 then rest else false

all_small-All : (s : Bytes) → all_small s ≡ true → All (λ b. b < 256) s
all_small-All [] h = tt
all_small-All (b ∷ s) h = (ground arith, all_small-All s (ground arith))

some_id_small : All (λ b. b < 256) some_id
some_id_small = all_small-All some_id refl

-- A store with sharded names, and an old file at the place of the id.
abbrev sharded : VmIoDb
sharded = record {
  crypto = toy_crypto;
  hex = toy_hex;
  root_dir = ascii "root" ∷ [];
  blob_key = 1 ∷ [];
}

abbrev below : List Bytes
below = shards (toy_hex.encode some_id) ++ (toy_hex.encode some_id ∷ [])

id_path-below : blob_path sharded some_id ≡ sharded.root_dir ++ below
unfolding id_path
id_path-below = refl

cleanup_dir-reaches_example :
    (cleanup_dir sharded working
        (λ path. true)
        (record { entries = []; chunks = [] })
        (lone_file below)
        sharded.root_dir
        0
        (λ path. some (7 ∷ []))).1
      (blob_path sharded some_id)
    ≡ none
unfolding blob_id_row
cleanup_dir-reaches_example =
    cleanup_dir-reaches sharded working (λ path. true) (record { entries = []; chunks = [] })
      toy_hex-IsHex some_id refl some_id_small refl refl refl below id_path-below
      (λ path. some (7 ∷ []))

abbrev no_files : Disk
no_files path = none

abbrev spot : FilePath
spot = ascii "root" ∷ ascii "0123" ∷ []

abbrev missing : Round
missing = record { dirs_made = true; answer = not_found }

abbrev broken : Round
broken = record { dirs_made = true; answer = torn 1 }

write-Wrote_example :
    Wrote no_files spot (5 ∷ 6 ∷ []) (write missing broken no_files spot (5 ∷ 6 ∷ [])).1
    × ((write missing broken no_files spot (5 ∷ 6 ∷ [])).0 ≡ ok tt
        → (write missing broken no_files spot (5 ∷ 6 ∷ [])).1 spot ≡ some (5 ∷ 6 ∷ []))
write-Wrote_example = write-Wrote no_files spot (5 ∷ 6 ∷ []) missing broken
