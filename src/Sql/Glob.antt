-- ===== src/Sql/Glob.antt =====
-- `glob_prefix_pattern` of rs/v-m-io-db/src/sql.rs, against the documented matching rules of
-- SQLite's GLOB operator.
use v_m_io.Common.{
  ℕ, ◌≡◌, ◌≢◌, arith, Bool, true, false, [], ◌∷◌, ◌==◌, if◌then◌else◌, Bool-cases, inl, inr,
}
use v_m_io.Common.Bytes.{Bytes, starts_with}
use v_m_io.Sql.Methods.{is_special, glob_prefix_pattern}

-- The documented rules, as far as a pattern has them: a star at the end matches any rest; a
-- character that is neither a star, a question mark nor an opening bracket matches itself; and a
-- class of one character, which is neither a caret nor a closing bracket, matches that.
pub record IsGlob (glob : Bytes → Bytes → Bool) : Type 0 where
  pub literal :
      (c d : ℕ) (p s : Bytes)
      → c ≢ b'*'
      → c ≢ b'?'
      → c ≢ b'['
      → glob (c ∷ p) (d ∷ s) ≡ (if c == d then glob p s else false)
  pub literal_end : (c : ℕ) (p : Bytes) → c ≢ b'*' → c ≢ b'?' → c ≢ b'[' → glob (c ∷ p) [] ≡ false
  pub class :
      (c d : ℕ) (p s : Bytes)
      → c ≢ b'^'
      → c ≢ b']'
      → glob (b'[' ∷ c ∷ b']' ∷ p) (d ∷ s) ≡ (if c == d then glob p s else false)
  pub class_end : (c : ℕ) (p : Bytes) → c ≢ b'^' → c ≢ b']' → glob (b'[' ∷ c ∷ b']' ∷ p) [] ≡ false
  pub star : (s : Bytes) → glob (b'*' ∷ []) s ≡ true

-- What the code escapes may stand in a class, and what it does not is no wildcard.
special-class : (c : ℕ) → is_special c ≡ true → (c ≢ b'^') × (c ≢ b']')
special-class c h = (λ e. ground arith, λ e. ground arith)

plain-literal : (c : ℕ) → is_special c ≡ false → (c ≢ b'*') × (c ≢ b'?') × (c ≢ b'[')
plain-literal c h = (λ e. ground arith, λ e. ground arith, λ e. ground arith)

-- For a matcher in which a star at the end matches any rest, a character that is no star, question
-- mark or opening bracket matches itself, and a class of one character, no caret or closing
-- bracket, matches that one: the pattern of a prefix matches the keys that start with the prefix
-- and no others, whatever wildcards it holds.
pub glob-glob_prefix_pattern :
    (glob : Bytes → Bytes → Bool)
    → IsGlob glob
    → (prefix key : Bytes) → glob (glob_prefix_pattern prefix) key ≡ starts_with prefix key
unfolding glob_prefix_pattern
glob-glob_prefix_pattern glob g [] key = g.star key
glob-glob_prefix_pattern glob g (c ∷ prefix) [] = elim (Bool-cases (is_special c)) [
  | inl e ↦
      let (caret, bracket) = special-class c e in
      rw e (g.class_end c (glob_prefix_pattern prefix) caret bracket)
  | inr e ↦
      let (star, mark, bracket) = plain-literal c e in
      rw e (g.literal_end c (glob_prefix_pattern prefix) star mark bracket)
]
glob-glob_prefix_pattern glob g (c ∷ prefix) (d ∷ key) =
    let ih = glob-glob_prefix_pattern glob g prefix key in
    elim (Bool-cases (is_special c)) [
      | inl e ↦
          let (caret, bracket) = special-class c e in
          rw e (rw (g.class c d (glob_prefix_pattern prefix) key caret bracket) (rw ih))
      | inr e ↦
          let (star, mark, bracket) = plain-literal c e in
          rw e (rw (g.literal c d (glob_prefix_pattern prefix) key star mark bracket) (rw ih))
    ]
