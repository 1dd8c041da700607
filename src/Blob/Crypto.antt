-- ===== src/Blob/Crypto.antt =====
-- What the crates sha2, hkdf and aegis give: functions that the model does not define, and the
-- documented behaviour that the code relies on. rs/v-m-io-db/src/key.rs splits the master key.
use v_m_io.Common.{◌≡◌, Option, none, some, length}
use v_m_io.Common.Bytes.{Bytes, ascii}

pub record Crypto : Type 0 where
  -- `Sha256::digest(data)`
  pub sha256 : Bytes → Bytes
  -- `Hkdf::<Sha256>::new(salt, ikm)`, then `expand(info)` to 32 bytes
  pub hkdf : Option Bytes → Bytes → Bytes → Bytes
  -- `Aegis256::new(key, nonce).encrypt_in_place(data, adata)`: the ciphertext and the tag
  pub encrypt : Bytes → Bytes → Bytes → Bytes → Bytes × Bytes
  -- `Aegis256::new(key, nonce).decrypt_in_place(data, tag, adata)`: none where the tag is refused
  pub decrypt : Bytes → Bytes → Bytes → Bytes → Bytes → Option Bytes

-- The labels of blob.rs and of key.rs.
abbrev pub info_id : Bytes
info_id = ascii "v-m.io blob id v1"

abbrev pub info_key : Bytes
info_key = ascii "v-m.io blob key v1"

abbrev pub info_nonce : Bytes
info_nonce = ascii "v-m.io blob nonce v1"

abbrev pub info_sqlite : Bytes
info_sqlite = ascii "v-m.io sqlite key v1"

abbrev pub info_blob : Bytes
info_blob = ascii "v-m.io blob root key v1"

-- Decryption under the same key, nonce and associated data undoes encryption, and a ciphertext is
-- as long as its plaintext.
pub record IsCipher (c : Crypto) : Type 0 where
  pub decrypt-encrypt :
      (key nonce adata data' : Bytes)
      → c.decrypt key nonce adata
          (c.encrypt key nonce adata data').0
          (c.encrypt key nonce adata data').1
        ≡ some data'
  pub length-encrypt :
      (key nonce adata data' : Bytes) → length (c.encrypt key nonce adata data').0 ≡ length data'

-- No collisions: of the content hash, and of the ids that one blob key derives.
pub record IsCollisionFree (c : Crypto) : Type 0 where
  pub sha256_injective : (a b : Bytes) → c.sha256 a ≡ c.sha256 b → a ≡ b
  pub id_injective :
      (blob_key a b : Bytes)
      → c.hkdf (some a) blob_key info_id ≡ c.hkdf (some b) blob_key info_id
      → a ≡ b

-- `RootKeys`
pub record RootKeys : Type 0 where
  pub sqlite : Bytes
  pub blob : Bytes

-- `RootKeys::derive`
unfoldable pub derive_root : Crypto → Bytes → RootKeys
derive_root c master = record {
  sqlite = c.hkdf none master info_sqlite;
  blob = c.hkdf none master info_blob;
}
