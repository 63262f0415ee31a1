-- ===== src/Prelude/Int.antt =====
-- Signed integers over the native numbers, under the library's names (its ℤ stands on the unary ℕ).
-- Sums and orders go through the two parts of an integer, which are numbers that `omega` reads.
use Prim.Native.Nat.{ℕ, suc, ◌+◌, ◌-◌, ◌%◌, ◌^◌, ◌≤◌, ◌<◌}
use mathlib.Core.Path.{◌≡◌}
use mathlib.Core.Bool.{Bool}
use native.Mathlib.Omega.{arith}
use web3_nft.Prelude.Tests.{ltb, leb, ◌==◌, if◌then◌else◌}

-- `negsuc n` is -(n + 1).
pub data ℤ : Type 0 where
  pos : ℕ → ℤ
  negsuc : ℕ → ℤ

abbrev pub pos_part : ℤ → ℕ
pos_part (pos n) = n
pos_part (negsuc n) = 0

abbrev pub neg_part : ℤ → ℕ
neg_part (pos n) = 0
neg_part (negsuc n) = suc n

-- a - b, as an integer.
abbrev pub sub_ℕ : ℕ → ℕ → ℤ
sub_ℕ a b = if leb b a then pos (a - b) else negsuc (b - a - 1)

infixl 65 ◌+ℤ◌ ◌-ℤ◌
infix 50 ◌≤ℤ◌ ◌<ℤ◌
unfoldable pub ◌+ℤ◌ : ℤ → ℤ → ℤ
a +ℤ b = sub_ℕ (pos_part a + pos_part b) (neg_part a + neg_part b)

unfoldable pub ◌-ℤ◌ : ℤ → ℤ → ℤ
a -ℤ b = sub_ℕ (pos_part a + neg_part b) (neg_part a + pos_part b)

abbrev pub ◌≤ℤ◌ : ℤ → ℤ → Type 0
a ≤ℤ b = pos_part a + neg_part b ≤ pos_part b + neg_part a

abbrev pub ◌<ℤ◌ : ℤ → ℤ → Type 0
a <ℤ b = pos_part a + neg_part b < pos_part b + neg_part a

abbrev pub ltb_ℤ : ℤ → ℤ → Bool
ltb_ℤ a b = ltb (pos_part a + neg_part b) (pos_part b + neg_part a)

abbrev pub eqb_ℤ : ℤ → ℤ → Bool
eqb_ℤ a b = (pos_part a + neg_part b) == (pos_part b + neg_part a)

-- One lemma for each operation lets `omega` work with the operations shut, at any depth.
pub +ℤ_parts :
    (a b : ℤ)
    → pos_part (a +ℤ b) + neg_part a + neg_part b ≡ neg_part (a +ℤ b) + pos_part a + pos_part b
unfolding ◌+ℤ◌
+ℤ_parts a b = ground arith

pub -ℤ_parts :
    (a b : ℤ)
    → pos_part (a -ℤ b) + neg_part a + pos_part b ≡ neg_part (a -ℤ b) + pos_part a + neg_part b
unfolding ◌-ℤ◌
-ℤ_parts a b = ground arith

pub eq_of_parts : (a b : ℤ) → pos_part a + neg_part b ≡ pos_part b + neg_part a → a ≡ b
eq_of_parts a b h = ground arith

-- An equation of integers, read as two equations of numbers.
pub parts_of_eq : (a b : ℤ) → a ≡ b → (pos_part a ≡ pos_part b) × (neg_part a ≡ neg_part b)
parts_of_eq a b h = ground arith

pub ruleset int_laws = (arith, +ℤ_parts, -ℤ_parts, eq_of_parts)

-- The value of a 32-bit signed register that is given the integer `z`.
unfoldable pub wrap_i32 : ℤ → ℤ
wrap_i32 z =
    let u = (pos_part z + (2 ^ 32 - neg_part z % 2 ^ 32)) % 2 ^ 32 in
    if ltb u (2 ^ 31) then pos u else sub_ℕ u (2 ^ 32)

-- Inside the register's range nothing wraps.
pub wrap_i32_of_small : (z : ℤ) → pos_part z < 2 ^ 31 → neg_part z ≤ 2 ^ 31 → wrap_i32 z ≡ z
unfolding wrap_i32
wrap_i32_of_small z h k = ground arith
