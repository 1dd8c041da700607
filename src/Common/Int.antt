-- ===== src/Common/Int.antt =====
-- i64 values as integers, with their order tests, and the bounds of the machine type.
use Prim.Native.Nat.{ℕ, suc, ◌+◌, ◌-◌, ◌^◌, ◌%◌, ◌≤◌, ◌<◌}
use mathlib.Core.Path.{◌≡◌, ap}
use mathlib.Core.Bool.{Bool, true}
use native.Mathlib.Omega.{arith}
use native.Mathlib.Decide.{ℕ_discrete}
use v_m_io.Common.Tests.{ltb, leb, if◌then◌else◌, ◌==◌}

-- `negsuc n` is -(n + 1).
pub data ℤ : Type 0 where
  pos : ℕ → ℤ
  negsuc : ℕ → ℤ

abbrev pub pos_part : ℤ → ℕ
pos_part (pos n) = n
pos_part (negsuc n) = 0

abbrev pub neg_part : ℤ → ℕ
neg_part (pos n) = 0
neg_part (negsuc n) = suc n

-- a - b, as an integer.
abbrev pub sub_ℕ : ℕ → ℕ → ℤ
sub_ℕ a b = if leb b a then pos (a - b) else negsuc (b - a - 1)

infixl 65 ◌+ℤ◌
unfoldable pub ◌+ℤ◌ : ℤ → ℤ → ℤ
a +ℤ b = sub_ℕ (pos_part a + pos_part b) (neg_part a + neg_part b)

infix 50 ◌≤ℤ◌ ◌<ℤ◌
abbrev pub ◌≤ℤ◌ : ℤ → ℤ → Type 0
a ≤ℤ b = pos_part a + neg_part b ≤ pos_part b + neg_part a

abbrev pub ◌<ℤ◌ : ℤ → ℤ → Type 0
a <ℤ b = pos_part a + neg_part b < pos_part b + neg_part a

abbrev pub ltbℤ : ℤ → ℤ → Bool
ltbℤ a b = ltb (pos_part a + neg_part b) (pos_part b + neg_part a)

abbrev pub lebℤ : ℤ → ℤ → Bool
lebℤ a b = leb (pos_part a + neg_part b) (pos_part b + neg_part a)

abbrev pub eqbℤ : ℤ → ℤ → Bool
eqbℤ a b = pos_part a + neg_part b == pos_part b + neg_part a

pub eq_of_parts : (a b : ℤ) → pos_part a + neg_part b ≡ pos_part b + neg_part a → a ≡ b
eq_of_parts (pos a) (pos b) h = ap pos (omega arith)
eq_of_parts (pos a) (negsuc b) h = absurd (omega arith)
eq_of_parts (negsuc a) (pos b) h = absurd (omega arith)
eq_of_parts (negsuc a) (negsuc b) h = ap negsuc (omega arith)

pub eqbℤ→eq : (a b : ℤ) → eqbℤ a b ≡ true → a ≡ b
eqbℤ→eq a b h = eq_of_parts a b (ground arith)

pub eqbℤ_refl : (a : ℤ) → eqbℤ a a ≡ true
eqbℤ_refl a = ground arith

-- The bounds of the 64-bit signed machine integers.
abbrev pub i64_max : ℤ
i64_max = pos (2 ^ 63 - 1)

abbrev pub i64_min : ℤ
i64_min = negsuc (2 ^ 63 - 1)

pub record IsI64 (a : ℤ) : Type 0 where
  pub above : i64_min ≤ℤ a
  pub below : a ≤ℤ i64_max

-- The 64-bit pattern of an i64, `a as u64`: two's complement.
abbrev pub to_u64 : ℤ → ℕ
to_u64 (pos n) = n % 2 ^ 64
to_u64 (negsuc n) = 2 ^ 64 - 1 - n % 2 ^ 64

pub to_u64_injective : (a b : ℤ) → IsI64 a → IsI64 b → to_u64 a ≡ to_u64 b → a ≡ b
to_u64_injective (pos a) (pos b) ha hb h = ap pos (omega arith)
to_u64_injective (pos a) (negsuc b) ha hb h = absurd (omega arith)
to_u64_injective (negsuc a) (pos b) ha hb h = absurd (omega arith)
to_u64_injective (negsuc a) (negsuc b) ha hb h = ap negsuc (omega arith)

pub to_u64-lt : (a : ℤ) → to_u64 a < 2 ^ 64
to_u64-lt (pos n) = omega arith
to_u64-lt (negsuc n) = omega arith

unfoldable pub ℤ-discrete : Discrete ℤ
ℤ-discrete = hlevel ℕ_discrete

pub pos_injective : {a b : ℕ} → pos a ≡ pos b → a ≡ b
pos_injective h = cc
