-- ===== src/Blob/Layout.antt =====
-- Where a blob file lies: `id_path`, `is_shard_name` and `parse_name` of rs/v-m-io-db/src/blob.rs.
-- A path is the list of its components, and `join` appends one. The crate hex is a parameter.
use v_m_io.Common.{
  ℕ, suc, zero, ◌*◌, ◌+◌, ◌<◌, ◌≤◌, ◌≡◌, refl, Bool, true, false, ◌&&◌, ◌||◌, Option, some, List,
  [], ◌∷◌, ◌++◌, arith, length, take, drop, length-take, All, leb, ◌==◌, if◌then◌else◌,
}
use v_m_io.Common.Bytes.{Bytes}
use v_m_io.Blob.Frame.{append_injective, snoc_injective}

abbrev pub FilePath : Type 0
FilePath = List Bytes

pub record Hex : Type 0 where
  -- `hex::encode(id)`
  pub encode : Bytes → Bytes
  -- `hex::decode_to_slice(name, &mut [0; 32])`
  pub decode_id : Bytes → Option Bytes

-- `SHARD_DEPTH` and `SHARD_LEN`
abbrev pub shard_depth : ℕ
shard_depth = 3

abbrev pub shard_len : ℕ
shard_len = 4

-- `u8::is_ascii_hexdigit`
abbrev pub is_ascii_hexdigit : ℕ → Bool
is_ascii_hexdigit b =
    (leb b'0' b && leb b b'9') || ((leb b'a' b && leb b b'f') || (leb b'A' b && leb b b'F'))

abbrev pub all_hex : Bytes → Bool
all_hex [] = true
all_hex (b ∷ s) = let rest = all_hex s in if is_ascii_hexdigit b then rest else false

-- The documented behaviour of the crate hex: two digits a byte, and a decoder into 32 bytes that
-- reads back what was written.
pub record IsHex (h : Hex) : Type 0 where
  pub length-encode : (id : Bytes) → length (h.encode id) ≡ 2 * length id
  pub digits : (id : Bytes) → all_hex (h.encode id) ≡ true
  pub decode-encode :
      (id : Bytes) → length id ≡ 32 → All (λ b. b < 256) id → h.decode_id (h.encode id) ≡ some id

unfoldable pub is_shard_name : Bytes → Bool
is_shard_name name = (length name == shard_len) && all_hex name

abbrev pub parse_name : Hex → Bytes → Option Bytes
parse_name h name = h.decode_id name

-- The components that `id_path` joins to the root directory, from the hex digits of the id.
abbrev pub shards : Bytes → List Bytes
shards hex =
    take shard_len hex
    ∷ take shard_len (drop shard_len hex)
    ∷ take shard_len (drop (shard_len * 2) hex)
    ∷ []

unfoldable pub id_path : Hex → FilePath → Bytes → FilePath
id_path h root id = root ++ (shards (h.encode id) ++ (h.encode id ∷ []))

all_hex-take : (n : ℕ) (s : Bytes) → all_hex s ≡ true → all_hex (take n s) ≡ true
all_hex-take zero s e = refl
all_hex-take (suc n) [] e = refl
all_hex-take (suc n) (b ∷ s) e = ground (arith, all_hex-take n s)

all_hex-drop : (n : ℕ) (s : Bytes) → all_hex s ≡ true → all_hex (drop n s) ≡ true
all_hex-drop zero s e = e
all_hex-drop (suc n) [] e = refl
all_hex-drop (suc n) (b ∷ s) e = all_hex-drop n s (ground arith)

length-drop-le : (n k : ℕ) (s : Bytes) → n + k ≤ length s → k ≤ length (drop n s)
length-drop-le zero k s e = omega arith
length-drop-le (suc n) k [] e = absurd (omega arith)
length-drop-le (suc n) k (b ∷ s) e = length-drop-le n k s (omega arith)

shard_of_take :
    (s : Bytes) → all_hex s ≡ true → 4 ≤ length s → is_shard_name (take shard_len s) ≡ true
unfolding is_shard_name
shard_of_take s e l =
    let digits = all_hex-take 4 s e in
    let len : length (take 4 s) ≡ 4 = omega (arith, length-take 4 s) in ground arith

module _ (h : Hex) (w : IsHex h) (id : Bytes) where
  -- The directories of the path have shard names, and the file name parses to the id.
  pub shards-IsShardName :
      length id ≡ 32 → All (λ name. is_shard_name name ≡ true) (shards (h.encode id))
  shards-IsShardName e =
      let hex : Bytes = h.encode id in
      let len : length hex ≡ 64 = omega (arith, w.length-encode id) in
      let digits = w.digits id in
      let second =
        shard_of_take (drop 4 hex) (all_hex-drop 4 hex digits)
          (length-drop-le 4 4 hex (omega arith)) in
      let third =
        shard_of_take (drop 8 hex) (all_hex-drop 8 hex digits)
          (length-drop-le 8 4 hex (omega arith)) in
      (shard_of_take hex digits (omega arith), (second, (third, tt)))

pub root_append_injective : (root us vs : FilePath) → root ++ us ≡ root ++ vs → us ≡ vs
root_append_injective root us vs e = (append_injective root root us vs refl e).1

-- Two ids have one path only if they are one id.
pub id_path_injective :
    (h : Hex)
    → ((a b : Bytes) → h.encode a ≡ h.encode b → a ≡ b)
    → (root : FilePath) (a b : Bytes) → id_path h root a ≡ id_path h root b
    → a ≡ b
unfolding id_path
id_path_injective h w root a b e =
    w a b
      (snoc_injective (shards (h.encode a)) (shards (h.encode b)) _ _
        (root_append_injective root _ _ e)).1
