-- ===== src/Common/Bytes.antt =====
-- Byte strings: Rust's `[u8]`, and `String` by its UTF-8 bytes. Their equality, their order (that
-- of `memcmp`), and the little-endian encoding of a word.
use Prim.Native.Nat.{ℕ, zero, suc, ◌*◌, ◌/◌, ◌%◌, ◌^◌, ◌<◌}
use mathlib.Core.Path.{◌≡◌, refl, ap}
use mathlib.Core.Bool.{Bool, true, false}
use mathlib.Core.List.{List, [], ◌∷◌}
use Prim.Native.Char.{code}
use Prim.Native.String.{String}
use native.Mathlib.Omega.{arith}
use native.Mathlib.Nat.{pow-suc}
use native.Mathlib.Decide.{ℕ_discrete}
use v_m_io.Common.Tests.{ltb, if◌then◌else◌, ◌==◌}
use v_m_io.Common.Lists.{length}

abbrev pub Bytes : Type 0
Bytes = List ℕ

-- The bytes of an ASCII literal.
abbrev pub ascii : String → Bytes
ascii String.[] = []
ascii (String.◌∷◌ c s) = code c ∷ ascii s

unfoldable pub dec_bytes : Discrete Bytes
dec_bytes = hlevel ℕ_discrete

-- The primary key of an entry, (class, key).
unfoldable pub dec_pair : Discrete (Bytes × Bytes)
dec_pair = hlevel ℕ_discrete

-- A path, by its components.
unfoldable pub dec_path : Discrete (List Bytes)
dec_path = hlevel ℕ_discrete

-- Does `s` start with `p`?
abbrev pub starts_with : Bytes → Bytes → Bool
starts_with [] s = true
starts_with (c ∷ p) [] = false
starts_with (c ∷ p) (d ∷ s) = let rest = starts_with p s in if c == d then rest else false

-- `memcmp` order: a proper prefix comes first.
abbrev pub lex_leb : Bytes → Bytes → Bool
lex_leb [] t = true
lex_leb (c ∷ s) [] = false
lex_leb (c ∷ s) (d ∷ t) =
    let rest = lex_leb s t in if ltb c d then true else if c == d then rest else false

pub lex_leb_refl : (s : Bytes) → lex_leb s s ≡ true
lex_leb_refl [] = refl
lex_leb_refl (c ∷ s) = ground (arith, lex_leb_refl s)

pub lex_leb_total : (s t : Bytes) → lex_leb s t ≡ false → lex_leb t s ≡ true
lex_leb_total [] t h = cc
lex_leb_total (c ∷ s) [] h = refl
lex_leb_total (c ∷ s) (d ∷ t) h = ground (arith, lex_leb_total s t)

pub lex_leb_trans : (s t u : Bytes) → lex_leb s t ≡ true → lex_leb t u ≡ true → lex_leb s u ≡ true
lex_leb_trans [] t u h k = refl
lex_leb_trans (c ∷ s) [] u h k = cc
lex_leb_trans (c ∷ s) (d ∷ t) [] h k = cc
lex_leb_trans (c ∷ s) (d ∷ t) (e ∷ u) h k = ground (arith, lex_leb_trans s t u)

pub lex_leb_antisymm : (s t : Bytes) → lex_leb s t ≡ true → lex_leb t s ≡ true → s ≡ t
lex_leb_antisymm [] [] h k = refl
lex_leb_antisymm [] (d ∷ t) h k = cc
lex_leb_antisymm (c ∷ s) [] h k = cc
lex_leb_antisymm (c ∷ s) (d ∷ t) h k = ground (arith, lex_leb_antisymm s t)

-- The `k` low bytes of a word, lowest first.
unfoldable pub le_bytes : ℕ → ℕ → Bytes
le_bytes zero v = []
le_bytes (suc k) v = v % 256 ∷ le_bytes k (v / 256)

pub length-le_bytes : (k v : ℕ) → length (le_bytes k v) ≡ k
unfolding le_bytes
length-le_bytes zero v = refl
length-le_bytes (suc k) v = ap suc (length-le_bytes k (v / 256))

pub le_bytes_injective :
    (k v w : ℕ) → v < 256 ^ k → w < 256 ^ k → le_bytes k v ≡ le_bytes k w → v ≡ w
unfolding le_bytes
le_bytes_injective zero v w hv hw h = omega arith
le_bytes_injective (suc k) v w hv hw h =
    let low : v % 256 ≡ w % 256 = cc in
    let high : le_bytes k (v / 256) ≡ le_bytes k (w / 256) = cc in
    let bound : 256 ^ suc k ≡ 256 ^ k * 256 = pow-suc 256 k in
    omega (arith, le_bytes_injective k (v / 256) (w / 256) (omega arith) (omega arith) high)
