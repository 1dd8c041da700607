-- ===== src/Blob/Cipher.antt =====
-- The key schedule of a chunk and its encryption: `ChunkId::derive`, `gen_id`, `encrypt_chunk` and
-- `decrypt_chunk` of rs/v-m-io-db/src/blob.rs. A buffer that is changed in place is returned.
use v_m_io.Common.{◌≡◌, none, some, length}
use v_m_io.Common.Bytes.{Bytes}
use v_m_io.Io.{Result, ok, err, not_authentic}
use v_m_io.Blob.Crypto.{Crypto, IsCipher, IsCollisionFree, info_id, info_key, info_nonce}
use v_m_io.Blob.Frame.{ChunkId, IsMachine, frame, frame_injective}

pub record ChunkKeys : Type 0 where
  pub id : Bytes
  pub key : Bytes
  pub nonce : Bytes
  pub adata : Bytes

pub record EncryptResult : Type 0 where
  pub id : Bytes
  pub tag : Bytes

module _ (c : Crypto) where
  unfoldable pub derive : ChunkId → Bytes → ChunkKeys
  derive chunk blob_key =
      let adata = frame chunk in
      record {
        id = c.hkdf (some adata) blob_key info_id;
        key = c.hkdf (some adata) blob_key info_key;
        nonce = c.hkdf (some adata) blob_key info_nonce;
        adata = adata;
      }

  unfoldable pub gen_id : ChunkId → Bytes → Bytes
  unfolding derive
  gen_id chunk blob_key = (derive chunk blob_key).id

  -- The buffer after the call, and the result.
  unfoldable pub encrypt_chunk : ChunkId → Bytes → Bytes → Bytes × EncryptResult
  unfolding derive
  encrypt_chunk chunk data' blob_key =
      let keys = derive chunk blob_key in
      let (cipher, tag) = c.encrypt keys.key keys.nonce keys.adata data' in
      (cipher, record { id = keys.id; tag = tag })

  -- The buffer after a successful call.
  unfoldable pub decrypt_chunk : ChunkId → Bytes → Bytes → Bytes → Result Bytes
  unfolding derive
  decrypt_chunk chunk data' blob_key tag =
      let keys = derive chunk blob_key in
      elim (c.decrypt keys.key keys.nonce keys.adata data' tag) [
        | none ↦ err not_authentic
        | some plain ↦ ok plain
      ]

module _ (c : Crypto) (w : IsCipher c) where
  -- With a cipher that decrypts what it encrypts, decrypt_chunk undoes encrypt_chunk under the
  -- same chunk, key and tag.
  pub decrypt_chunk-encrypt_chunk :
      (chunk : ChunkId) (data' blob_key : Bytes)
      → decrypt_chunk c chunk
          (encrypt_chunk c chunk data' blob_key).0
          blob_key
          (encrypt_chunk c chunk data' blob_key).1.tag
        ≡ ok data'
  unfolding decrypt_chunk encrypt_chunk
  decrypt_chunk-encrypt_chunk chunk data' blob_key = rw (w.decrypt-encrypt, decrypt_chunk)

  pub length-encrypt_chunk :
      (chunk : ChunkId) (data' blob_key : Bytes)
      → length (encrypt_chunk c chunk data' blob_key).0 ≡ length data'
  unfolding encrypt_chunk
  length-encrypt_chunk chunk data' blob_key = w.length-encrypt _ _ _ data'

-- Under one blob key, and where the derived ids do not collide, chunk identities with machine-size
-- fields and one blob id are equal.
pub gen_id_injective :
    (c : Crypto)
    → IsCollisionFree c
    → (a b : ChunkId) (blob_key : Bytes) → IsMachine a
    → IsMachine b
    → gen_id c a blob_key ≡ gen_id c b blob_key
    → a ≡ b
unfolding gen_id
gen_id_injective c w a b blob_key ha hb e =
    frame_injective a b ha hb (w.id_injective blob_key _ _ e)
