-- ===== src/Examples/Crates.antt =====
-- Concrete functions for what the model takes from the crates and from SQLite, with their laws:
-- toys that keep what the store relies on.
use v_m_io.Common.{
  ◌≢◌, ℕ, ◌+◌, ◌-◌, ◌*◌, ◌/◌, ◌%◌, ◌<◌, ◌≡◌, refl, Bool, true, false, Option, none, some, [], ◌∷◌,
  ◌++◌, arith, length, All, ltb, leb, ◌==◌, ==_iff, if◌then◌else◌, is_yes, →is_yes,
}
use v_m_io.Common.Bytes.{Bytes, dec_bytes}
use v_m_io.Blob.Crypto.{Crypto, IsCipher, IsCollisionFree}
use v_m_io.Blob.Layout.{Hex, IsHex, is_ascii_hexdigit, all_hex}
use v_m_io.Sql.Glob.{IsGlob}

abbrev seal : Bytes → Bytes → Bytes → Bytes
seal key nonce adata = key ++ (nonce ++ adata)

abbrev salted : Option Bytes → Bytes → Bytes
salted none ikm = ikm
salted (some salt) ikm = salt

abbrev pub toy_crypto : Crypto
toy_crypto = record {
  sha256 = λ s. s;
  hkdf = λ salt ikm info. salted salt ikm;
  encrypt = λ key nonce adata s. (s, seal key nonce adata);
  decrypt = λ key nonce adata s tag.
      if is_yes (dec_bytes tag (seal key nonce adata)) then some s else none;
}

pub toy_crypto-IsCipher : IsCipher toy_crypto
toy_crypto-IsCipher = record {
  decrypt-encrypt = λ key nonce adata s.
      rw (→is_yes (dec_bytes (seal key nonce adata) (seal key nonce adata)) refl);
  length-encrypt = λ key nonce adata s. refl;
}

pub toy_crypto-IsCollisionFree : IsCollisionFree toy_crypto
toy_crypto-IsCollisionFree = record { sha256_injective = λ a b e. e; id_injective = λ key a b e. e }

-- Two digits a byte.
abbrev pub digit : ℕ → ℕ
digit n = if ltb n 10 then 48 + n else 87 + n

abbrev value : ℕ → ℕ
value d = if leb d 57 then d - 48 else d - 87

abbrev pub digits_of : Bytes → Bytes
digits_of [] = []
digits_of (b ∷ s) = digit (b / 16 % 16) ∷ digit (b % 16) ∷ digits_of s

abbrev pub read_digits : Bytes → Bytes
read_digits [] = []
read_digits (d ∷ []) = []
read_digits (d ∷ e ∷ s) = (value d * 16 + value e) ∷ read_digits s

abbrev pub toy_hex : Hex
toy_hex = record {
  encode = digits_of;
  decode_id = λ name. if length name == 64 then some (read_digits name) else none;
}

digit_hex : (n : ℕ) → n < 16 → is_ascii_hexdigit (digit n) ≡ true
digit_hex n h = ground arith

value-digit : (n : ℕ) → n < 16 → value (digit n) ≡ n
value-digit n h = ground arith

digits_hex : (s : Bytes) → all_hex (digits_of s) ≡ true
digits_hex [] = refl
digits_hex (b ∷ s) =
    rw (digit_hex (b / 16 % 16) (omega arith), digit_hex (b % 16) (omega arith), digits_hex s)

pub length-digits_of : (s : Bytes) → length (digits_of s) ≡ 2 * length s
length-digits_of [] = refl
length-digits_of (b ∷ s) = omega (arith, length-digits_of s)

pub read_digits-digits_of : (s : Bytes) → All (λ b. b < 256) s → read_digits (digits_of s) ≡ s
read_digits-digits_of [] h = refl
read_digits-digits_of (b ∷ s) h =
    let whole : b / 16 % 16 * 16 + b % 16 ≡ b = omega arith in
    rw (
      value-digit (b / 16 % 16) (omega arith),
      value-digit (b % 16) (omega arith),
      whole,
      read_digits-digits_of s h.1,
    )

pub toy_hex-IsHex : IsHex toy_hex
toy_hex-IsHex = record {
  length-encode = length-digits_of;
  digits = digits_hex;
  decode-encode = λ id l small.
      let whole : (length (digits_of id) == 64) ≡ true =
        (==_iff (length (digits_of id)) 64).1 (omega (arith, length-digits_of id)) in
      rw (whole, read_digits-digits_of id small);
}

-- An encoding that is injective on lists of any numbers.
abbrev pub plain_hex : Hex
plain_hex = record { encode = λ s. s; decode_id = some }

-- Matching of literals, of classes of one character, and of a star at the end.
abbrev toy_glob_end : Bytes → Bool
toy_glob_end [] = true
toy_glob_end (d ∷ s) = false

abbrev pub toy_glob : Bytes → Bytes → Bool
toy_glob [] s = toy_glob_end s
toy_glob (c ∷ []) [] = c == b'*'
toy_glob (c ∷ []) (d ∷ s) = if c == b'*' then true else if c == d then toy_glob_end s else false
toy_glob (c ∷ x ∷ p) [] = false
toy_glob (c ∷ x ∷ []) (d ∷ s) = let rest = toy_glob (x ∷ []) s in if c == d then rest else false
toy_glob (c ∷ x ∷ y ∷ p) (d ∷ s) =
    let rest = toy_glob (x ∷ y ∷ p) s in
    let after = toy_glob p s in
    if c == b'[' then if x == d then after else false else if c == d then rest else false

toy_literal :
    (c d : ℕ) (p s : Bytes)
    → c ≢ b'*'
    → c ≢ b'?'
    → c ≢ b'['
    → toy_glob (c ∷ p) (d ∷ s) ≡ (if c == d then toy_glob p s else false)
toy_literal c d [] s star mark bracket = ground arith
toy_literal c d (x ∷ []) s star mark bracket = refl
toy_literal c d (x ∷ y ∷ p) s star mark bracket = ground arith

toy_literal_end : (c : ℕ) (p : Bytes) → c ≢ b'*' → c ≢ b'?' → c ≢ b'[' → toy_glob (c ∷ p) [] ≡ false
toy_literal_end c [] star mark bracket = ground arith
toy_literal_end c (x ∷ p) star mark bracket = refl

toy_star : (s : Bytes) → toy_glob (b'*' ∷ []) s ≡ true
toy_star [] = refl
toy_star (d ∷ s) = refl

pub toy_glob-IsGlob : IsGlob toy_glob
toy_glob-IsGlob = record {
  literal = toy_literal;
  literal_end = toy_literal_end;
  class = λ c d p s caret bracket. refl;
  class_end = λ c p caret bracket. refl;
  star = toy_star;
}
