-- ===== src/Blob/Frame.antt =====
-- `ChunkId` and its length framed encoding, `ChunkId::frame` in rs/v-m-io-db/src/blob.rs.
use mathlib.Core.List.{append_assoc}
use v_m_io.Common.{
  ℕ, ◌<◌, ◌^◌, ◌%◌, ◌≡◌, refl, Bool, true, false, List, [], ◌∷◌, ◌++◌, arith, length, ◌∙◌, sym,
}
use v_m_io.Common.Bytes.{Bytes, le_bytes, length-le_bytes, le_bytes_injective}
use v_m_io.Common.Int.{ℤ, IsI64, to_u64, to_u64-lt, to_u64_injective}

pub record ChunkId : Type 0 where
  pub class : Bytes
  pub key : Bytes
  pub idx : ℤ
  pub hash : Bytes
  pub is_final : Bool

-- What the machine types give of such an identity: an i64 index, and lengths that fit a u64.
pub record IsMachine (c : ChunkId) : Type 0 where
  pub class_fits : length c.class < 2 ^ 64
  pub key_fits : length c.key < 2 ^ 64
  pub idx_fits : IsI64 c.idx

-- `x as u8`
abbrev pub bool_byte : Bool → ℕ
bool_byte true = 1
bool_byte false = 0

-- A length prefixed field: `(s.len() as u64).to_le_bytes()`, then `s`.
abbrev pub framed : Bytes → Bytes
framed s = le_bytes 8 (length s % 2 ^ 64) ++ s

unfoldable pub frame : ChunkId → Bytes
frame c =
    framed c.class
    ++ (framed c.key ++ (le_bytes 8 (to_u64 c.idx) ++ (c.hash ++ (bool_byte c.is_final ∷ []))))

-- Two concatenations agree part by part, where the first parts are as long as each other.
module _ {ℓ} {A : Type ℓ} where
  pub append_injective :
      (xs ys us vs : List A) → length xs ≡ length ys → xs ++ us ≡ ys ++ vs → (xs ≡ ys) × (us ≡ vs)
  append_injective [] [] us vs h e = (refl, e)
  append_injective [] (y ∷ ys) us vs h e = absurd (omega arith)
  append_injective (x ∷ xs) [] us vs h e = absurd (omega arith)
  append_injective (x ∷ xs) (y ∷ ys) us vs h e =
      let tails : xs ++ us ≡ ys ++ vs = cc in
      let rest = append_injective xs ys us vs (omega arith) tails in
      let first : xs ≡ ys = rest.0 in let heads : x ≡ y = cc in (cc, rest.1)

  pub snoc_injective :
      (xs ys : List A) (x y : A) → xs ++ (x ∷ []) ≡ ys ++ (y ∷ []) → (xs ≡ ys) × (x ≡ y)
  snoc_injective [] [] x y e = (refl, cc)
  snoc_injective [] (b ∷ []) x y e = cc
  snoc_injective [] (b ∷ c ∷ ys) x y e = cc
  snoc_injective (a ∷ []) [] x y e = cc
  snoc_injective (a ∷ c ∷ xs) [] x y e = cc
  snoc_injective (a ∷ xs) (b ∷ ys) x y e =
      let rest = snoc_injective xs ys x y (cc) in
      let first : xs ≡ ys = rest.0 in let heads : a ≡ b = cc in (cc, rest.1)

-- A framed field is read back with what follows it.
framed_injective :
    (s t us vs : Bytes)
    → length s < 2 ^ 64
    → length t < 2 ^ 64
    → framed s ++ us ≡ framed t ++ vs
    → (s ≡ t) × (us ≡ vs)
framed_injective s t us vs hs ht e =
    let e' : le_bytes 8 (length s % 2 ^ 64) ++ (s ++ us)
        ≡ le_bytes 8 (length t % 2 ^ 64) ++ (t ++ vs) =
      sym (append_assoc (le_bytes 8 (length s % 2 ^ 64)) s us)
      ∙ e
      ∙ append_assoc (le_bytes 8 (length t % 2 ^ 64)) t vs in
    let split = append_injective _ _ _ _ (length-le_bytes 8 _ ∙ sym (length-le_bytes 8 _)) e' in
    let lens : length s % 2 ^ 64 ≡ length t % 2 ^ 64 =
      le_bytes_injective 8 _ _ (omega arith) (omega arith) split.0 in
    append_injective s t us vs (omega arith) split.1

bool_byte_injective : (a b : Bool) → bool_byte a ≡ bool_byte b → a ≡ b
bool_byte_injective true true h = refl
bool_byte_injective true false h = absurd (omega arith)
bool_byte_injective false true h = absurd (omega arith)
bool_byte_injective false false h = refl

-- Two chunk identities with machine-size fields and one frame are equal.
pub frame_injective : (a b : ChunkId) → IsMachine a → IsMachine b → frame a ≡ frame b → a ≡ b
unfolding frame
frame_injective a b ha hb e =
    let (class, e₁) = framed_injective _ _ _ _ ha.class_fits hb.class_fits e in
    let (key, e₂) = framed_injective _ _ _ _ ha.key_fits hb.key_fits e₁ in
    let (idx, e₃) = append_injective _ _ _ _ (length-le_bytes 8 _ ∙ sym (length-le_bytes 8 _)) e₂ in
    let (hash, final) = snoc_injective _ _ _ _ e₃ in
    let i =
      to_u64_injective a.idx b.idx ha.idx_fits hb.idx_fits
        (le_bytes_injective 8 _ _ (to_u64-lt a.idx) (to_u64-lt b.idx) idx) in
    let f = bool_byte_injective a.is_final b.is_final final in
    λ j. record { class = class j; key = key j; idx = i j; hash = hash j; is_final = f j }
