-- ===== src/Back/Config/Keys.antt =====
-- The master key of rs/v-m-io-back/src/lib.rs in test mode: `apply_test_defaults`, and what
-- `config_init` and `back_srv` resolve after it.
use v_m_io.Common.{
  ℕ, ◌<◌, false, ◌<◌, ◌≡◌, refl, subst, true, false, Option, none, some, [], ◌∷◌, All, arith,
  length, ◌==◌, ==_iff,
}
use v_m_io.Common.Bytes.{Bytes, ascii}
use v_m_io.Common.Trees.{Ascending, insert-Ascending}
use v_m_io.Io.{ok, err, >>=-eq-ok, invalid_init}
use v_m_io.Back.Values.{is_whitespace}
use v_m_io.Back.Config.{
  is_space2, is_space3, trim_left, trim_right, Config, InitValues, Text, is_empty, or_error,
  parse_encryption_key, configured, parsed_or, resolve_encryption_key, init_values, pinned,
  with_test_key, with_defaults, apply_test_defaults,
}

-- What the crates document: base64 of 32 bytes is ASCII text without whitespace that decodes to them; a
-- map is read back from its JSON object, and what is read is a map.
pub record IsText (text : Text) : Type 0 where
  pub decode-encode :
      (key : Bytes)
      → length key ≡ 32
      → All (λ b. b < 256) key
      → text.decode (text.encode key) ≡ some key
  pub encode_plain :
      (key : Bytes) → All (λ c. (c < 128) × (is_whitespace c ≡ false)) (text.encode key)
  pub encode_full : (key : Bytes) → length key ≡ 32 → is_empty (text.encode key) ≡ false
  pub from_str-to_string :
      (map : InitValues) (json : Bytes)
      → Ascending map
      → text.to_string map ≡ some json
      → text.from_str json ≡ some map
  pub from_str-Ascending :
      (json : Bytes) (map : InitValues) → text.from_str json ≡ some map → Ascending map
  pub empty_object : text.from_str (ascii "{}") ≡ some []

abbrev IsPlain : ℕ → Type 0
IsPlain c = (c < 128) × (is_whitespace c ≡ false)

ascii_narrow : (a b c : ℕ) → a < 128 → (is_space2 a b ≡ false) × (is_space3 a b c ≡ false)
ascii_narrow a b c h = (ground arith, ground arith)

trim_left-plain : (s : Bytes) → All IsPlain s → trim_left s ≡ s
unfolding trim_left
trim_left-plain [] h = refl
trim_left-plain (a ∷ []) h = rw h.0.1
trim_left-plain (a ∷ b ∷ []) h = let (two, three) = ascii_narrow a b 0 h.0.0 in rw (h.0.1, two)
trim_left-plain (a ∷ b ∷ c ∷ s) h =
    let (two, three) = ascii_narrow a b c h.0.0 in rw (h.0.1, two, three)

trim_right-plain : (s : Bytes) → All IsPlain s → trim_right s ≡ s
unfolding trim_right
trim_right-plain [] h = refl
trim_right-plain (a ∷ s) h = rw (trim_left-plain (a ∷ s) h, trim_right-plain s h.1)

module _ (text : Text) (w : IsText text) where
  parse_encryption_key-encode :
      (key : Bytes)
      → length key ≡ 32
      → All (λ b. b < 256) key
      → parse_encryption_key text (text.encode key) ≡ ok key
  unfolding parse_encryption_key
  parse_encryption_key-encode key len small =
      let plain = w.encode_plain key in
      let whole : (length key == 32) ≡ true = (==_iff (length key) 32).1 len in
      rw (
        trim_left-plain (text.encode key) plain,
        trim_right-plain (text.encode key) plain,
        w.decode-encode key len small,
        whole,
      )

  -- The pinned key resolves as the configured one does with the random key at hand.
  pinned-resolved :
      (random r : Bytes) (key : Option Bytes)
      → length random ≡ 32
      → All (λ b. b < 256) random
      → parsed_or text r (configured text (some (pinned text random (configured text key))))
        ≡ parsed_or text random (configured text key)
  pinned-resolved random r none len small =
      rw (w.encode_full random len) (parse_encryption_key-encode random len small)
  pinned-resolved random r (some []) len small =
      rw (w.encode_full random len) (parse_encryption_key-encode random len small)
  pinned-resolved random r (some (c ∷ key)) len small = refl

  -- What test mode changes: the root, the values to begin with, and the master key, which every
  -- later resolution gives.
  pub record TestDefaults (random root : Bytes) (config config' : Config) : Type 0 where
    pub values : InitValues
    pub values_were : init_values text config.init ≡ ok values
    pub root_is : config'.db_root_dir ≡ root
    pub values_are : init_values text config'.init ≡ ok (with_test_key text values)
    pub bound : is_empty config'.addr ≡ false
    pub key_is :
        (r : Bytes)
        → resolve_encryption_key text r config' ≡ resolve_encryption_key text random config

  or_error-ok :
      {A : Type 0} (o : Option A) (a : A) → or_error (err invalid_init) o ≡ ok a → o ≡ some a
  or_error-ok none a h = cc
  or_error-ok (some b) a h = cc

  pub init_values-Ascending :
      (init : Option Bytes) (values : InitValues)
      → init_values text init ≡ ok values
      → Ascending values
  init_values-Ascending none [] h = tt
  init_values-Ascending none (v ∷ values) h = absurd (cc)
  init_values-Ascending (some json) values h =
      w.from_str-Ascending json values (or_error-ok (text.from_str json) values h)

  -- With 32 random bytes and crates that read back what they write: after apply_test_defaults the
  -- root is the given one, the values are those before with the test api key, there is an address
  -- to bind, and the master key resolves, whatever is random then, to what it resolved to before
  -- with the random bytes at hand.
  pub apply_test_defaults-TestDefaults :
      (random root : Bytes) (config config' : Config)
      → length random ≡ 32
      → All (λ b. b < 256) random
      → apply_test_defaults text random root config ≡ ok config'
      → TestDefaults random root config config'
  unfolding apply_test_defaults resolve_encryption_key
  apply_test_defaults-TestDefaults random root config config' len small h =
      let (values, were, h') = >>=-eq-ok (init_values text config.init) _ h in
      let (json, printed, h'') =
        >>=-eq-ok (or_error (err invalid_init) (text.to_string (with_test_key text values)))
          (λ encoded. ok (with_defaults text random root config encoded)) h' in
      let made : with_defaults text random root config json ≡ config' = cc in
      let read : text.from_str json ≡ some (with_test_key text values) =
        w.from_str-to_string (with_test_key text values) json
          (insert-Ascending _ _ values (init_values-Ascending config.init values were))
          (or_error-ok _ json printed) in
      subst (TestDefaults random root config) made (record {
        values = values;
        values_were = were;
        root_is = refl;
        values_are = rw read;
        bound = ground arith;
        key_is = λ r. pinned-resolved random r config.encryption_key len small;
      })
