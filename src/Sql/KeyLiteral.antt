-- ===== src/Sql/KeyLiteral.antt =====
-- `key_literal` of rs/v-m-io-db/src/sql.rs: the raw key literal of sqlcipher.
use v_m_io.Common.{
  ℕ, ◌+◌, ◌*◌, ◌/◌, ◌%◌, ◌<◌, ◌≡◌, refl, length-append, ◌-◌, [], ◌∷◌, ◌++◌, length, ltb,
  if◌then◌else◌, arith, All,
}
use v_m_io.Common.Bytes.{Bytes}
use v_m_io.Blob.Frame.{snoc_injective}

-- `HEX_CHARS[n]`, for an `n` below 16
abbrev pub hex_char : ℕ → ℕ
hex_char n = if ltb n 10 then b'0' + n else b'a' + (n - 10)

-- The loop: `byte >> 4` and `byte & 0x0f` of each byte.
unfoldable pub hex_chars : Bytes → Bytes
hex_chars [] = []
hex_chars (b ∷ secret) = hex_char (b / 16) ∷ hex_char (b % 16) ∷ hex_chars secret

unfoldable pub key_literal : Bytes → Bytes
unfolding hex_chars
key_literal secret = b'x' ∷ b'\'' ∷ (hex_chars secret ++ (b'\'' ∷ []))

length-hex_chars : (s : Bytes) → length (hex_chars s) ≡ 2 * length s
unfolding hex_chars
length-hex_chars [] = refl
length-hex_chars (b ∷ s) = omega (arith, length-hex_chars s)

hex_char_injective : (a b : ℕ) → a < 16 → b < 16 → hex_char a ≡ hex_char b → a ≡ b
hex_char_injective a b ha hb e = ground arith

hex_chars_injective :
    (s t : Bytes) → All (λ b. b < 256) s → All (λ b. b < 256) t → hex_chars s ≡ hex_chars t → s ≡ t
unfolding hex_chars
hex_chars_injective [] [] hs ht e = refl
hex_chars_injective [] (b ∷ t) hs ht e = cc
hex_chars_injective (b ∷ s) [] hs ht e = cc
hex_chars_injective (a ∷ s) (b ∷ t) hs ht e =
    let high : hex_char (a / 16) ≡ hex_char (b / 16) = cc in
    let low : hex_char (a % 16) ≡ hex_char (b % 16) = cc in
    let rest : hex_chars s ≡ hex_chars t = cc in
    let same_high =
      hex_char_injective (a / 16) (b / 16) (omega (arith, hs.0)) (omega (arith, ht.0)) high in
    let same_low = hex_char_injective (a % 16) (b % 16) (omega arith) (omega arith) low in
    let same : a ≡ b = omega (arith, same_high, same_low) in
    let tails : s ≡ t = hex_chars_injective s t hs.1 ht.1 rest in cc

-- For keys of bytes below 256, the literal of a key of 32 bytes has 67 bytes, and keys with one
-- literal are equal.
pub key_literal_injective :
    (s t : Bytes)
    → length s ≡ 32
    → All (λ b. b < 256) s
    → All (λ b. b < 256) t
    → (length (key_literal s) ≡ 67) × (key_literal s ≡ key_literal t → s ≡ t)
unfolding key_literal
key_literal_injective s t l hs ht = (
  omega (arith, length-hex_chars s, length-append (hex_chars s) (b'\'' ∷ [])),
  (λ e.
      let inner : hex_chars s ++ (b'\'' ∷ []) ≡ hex_chars t ++ (b'\'' ∷ []) = cc in
      hex_chars_injective s t hs ht (snoc_injective (hex_chars s) (hex_chars t) _ _ inner).0),
)
