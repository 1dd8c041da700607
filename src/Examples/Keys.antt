-- ===== src/Examples/Keys.antt =====
-- The theorems on the pool of connections, their opening and the key literal, at concrete values.
use mathlib.Core.List.{Perm}
use v_m_io.Common.{
  List, ℕ, ◌≡◌, ◌<◌, refl, [], ◌∷◌, ◌++◌, length, arith, All, Bool, true, false, ◌⊎◌,
}
use v_m_io.Common.Bytes.{Bytes}
use v_m_io.Sql.Pool.{RingPool, PoolStep, PoolSteps, contents, pool_conserved}
use v_m_io.Sql.Pool as Pool
use v_m_io.Io.{ok, err, sql, fault}
use v_m_io.Sql.Open.{
  Connection, c_write, c_read_1, c_read_2, c_read_3, pragma, schema, OpenCall, open_with_flags,
  pragma_update, execute_batch, new, script, Stops, new-Makes,
}
use v_m_io.Sql.KeyLiteral.{key_literal, key_literal_injective}

abbrev taken : RingPool ℕ
taken = record { waiting = 2 ∷ 3 ∷ []; held = 1 ∷ [] }

pool_conserved_example : Perm (contents ℕ taken) (1 ∷ 2 ∷ 3 ∷ [])
pool_conserved_example =
    pool_conserved ℕ 1 2 3 taken
      (PoolSteps.then_step PoolSteps.none_taken (PoolStep.get 1 (2 ∷ 3 ∷ []) []))

abbrev eight : Bytes
eight = 0 ∷ 255 ∷ 16 ∷ 15 ∷ 1 ∷ 2 ∷ 3 ∷ 171 ∷ []

abbrev secret : Bytes
secret = eight ++ (eight ++ (eight ++ eight))

small_append :
    (s : Bytes)
    → All (λ b. b < 256) s
    → (t : Bytes) → All (λ b. b < 256) t
    → All (λ b. b < 256) (s ++ t)
small_append [] hs t ht = ht
small_append (b ∷ s) hs t ht = (hs.0, small_append s hs.1 t ht)

eight_small : All (λ b. b < 256) eight
eight_small = (
  omega arith,
  (
    omega arith,
    (omega arith, (omega arith, (omega arith, (omega arith, (omega arith, (omega arith, tt)))))),
  ),
)

secret_small : All (λ b. b < 256) secret
secret_small = small_append eight eight_small (eight ++ (eight ++ eight)) (
    small_append eight eight_small (eight ++ eight)
      (small_append eight eight_small eight eight_small))

key_literal_injective_example :
    (length (key_literal secret) ≡ 67) × (key_literal secret ≡ key_literal secret → secret ≡ secret)
key_literal_injective_example = key_literal_injective secret secret refl secret_small secret_small

-- The schema cannot be made.
abbrev bad_schema : OpenCall → Bool
bad_schema (open_with_flags c mode) = true
bad_schema (pragma_update c hex_key) = true
bad_schema (execute_batch c pragma) = true
bad_schema (execute_batch c schema) = false

new-Makes_example :
    ((new bad_schema secret ≡ (
      ok (record { write = c_write; c_read_pool = Pool.new Connection c_read_1 c_read_2 c_read_3 }),
      script (key_literal secret),
    ))
      × All (λ c. bad_schema c ≡ true) (script (key_literal secret)))
    ⊎ (made : List OpenCall) × Stops bad_schema (script (key_literal secret)) made
      × (new bad_schema secret ≡ (err (sql fault), made))
new-Makes_example = new-Makes bad_schema secret
