-- ===== src/Io.antt =====
-- `std::io::Result`: the errors that the crates build themselves, by message, and those that they
-- pass on from the database engine, the file system, the network and the codecs.
use v_m_io.Common.{ℕ, ◌≡◌, refl, Bool, true, false}
use v_m_io.Common.Bytes.{Bytes}

-- What a failed statement of the engine reports.
pub data SqlError : Type 0 where
  fault : SqlError
  constraint : SqlError

pub data IoError : Type 0 where
  -- rs/v-m-io-db
  class_too_long key_too_long metadata_too_long : IoError
  non_final_size final_size finality_mismatch corrupted_chunk : IoError
  shard_removed : IoError
  sql : SqlError → IoError
  file_system : IoError
  not_authentic : IoError
  -- rs/v-m-io-back
  config_key_too_long config_value_too_long not_utf8 no_timestamp : IoError
  invalid_base64 invalid_key_length invalid_init : IoError
  -- rs/v-m-io-chan, rs/v-m-io-types
  health_body duplicate_handler invalid_req transport codec unexpected_result : IoError
  request_failed : ℕ → Bytes → IoError
  other : Bytes → IoError

pub data Result {ℓ} (Value : Type ℓ) : Type ℓ where
  err : IoError → Result Value
  ok : Value → Result Value

-- Early return with the error unless the test holds.
abbrev pub guard : Bool → IoError → Result (Unit {0})
guard false error = err error
guard true error = ok tt

-- `?`
infixl 5 ◌>>=◌
abbrev pub ◌>>=◌ {ℓ κ} : {X : Type ℓ} {Y : Type κ} → Result X → (X → Result Y) → Result Y
err error >>= next = err error
ok value >>= next = next value

infixl 5 ◌>>◌
abbrev pub ◌>>◌ {ℓ} : {Y : Type ℓ} → Result (Unit {0}) → Result Y → Result Y
first >> second = first >>= λ value. second

pub >>=-eq-ok {ℓ κ} :
    {X : Type ℓ} {Y : Type κ} (m : Result X) (next : X → Result Y) {y : Y}
    → (m >>= next) ≡ ok y
    → (x : X) × (m ≡ ok x) × (next x ≡ ok y)
>>=-eq-ok (err error) next h = cc
>>=-eq-ok (ok value) next h = (value, refl, h)
