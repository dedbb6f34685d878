-- ===== src/Prelude/Int.antt =====
-- Signed integers over the native numbers. An amount of money is an integer number of cents.
use Prim.Native.Nat.{ℕ, zero, suc, ◌+◌, ◌-◌, ◌*◌, ◌/◌, ◌%◌, ◌≤◌, ◌<◌}
use mathlib.Core.Path.{◌≡◌}
use mathlib.Core.Logic.{◌⊎◌}
use mathlib.Core.Bool.{Bool, true}
use native.Mathlib.Omega.{arith}
use native.Mathlib.Decide.{dec_lt}
use native.Mathlib.Nat.{div-le_of_le-mul, div-add-mod}
use tradeguard_canton.Prelude.Tests.{ltb, leb, ◌==◌, if◌then◌else◌}

-- `negsuc n` is -(n + 1).
pub data ℤ : Type 0 where
  pos : ℕ → ℤ
  negsuc : ℕ → ℤ

abbrev pub pos_part : ℤ → ℕ
pos_part (pos n) = n
pos_part (negsuc n) = 0

abbrev pub neg_part : ℤ → ℕ
neg_part (pos n) = 0
neg_part (negsuc n) = suc n

abbrev pub sub_ℕ : ℕ → ℕ → ℤ
sub_ℕ a b = if leb b a then pos (a - b) else negsuc (b - a - 1)

infixl 65 ◌+ℤ◌ ◌-ℤ◌
infix 50 ◌≤ℤ◌ ◌<ℤ◌
unfoldable pub ◌+ℤ◌ : ℤ → ℤ → ℤ
a +ℤ b = sub_ℕ (pos_part a + pos_part b) (neg_part a + neg_part b)

unfoldable pub ◌-ℤ◌ : ℤ → ℤ → ℤ
a -ℤ b = sub_ℕ (pos_part a + neg_part b) (neg_part a + pos_part b)

unfoldable pub neg : ℤ → ℤ
neg a = sub_ℕ (neg_part a) (pos_part a)

abbrev pub ◌≤ℤ◌ : ℤ → ℤ → Type 0
a ≤ℤ b = pos_part a + neg_part b ≤ pos_part b + neg_part a

abbrev pub ◌<ℤ◌ : ℤ → ℤ → Type 0
a <ℤ b = pos_part a + neg_part b < pos_part b + neg_part a

abbrev pub ltb_ℤ : ℤ → ℤ → Bool
ltb_ℤ a b = ltb (pos_part a + neg_part b) (pos_part b + neg_part a)

abbrev pub leb_ℤ : ℤ → ℤ → Bool
leb_ℤ a b = leb (pos_part a + neg_part b) (pos_part b + neg_part a)

abbrev pub eqb_ℤ : ℤ → ℤ → Bool
eqb_ℤ a b = (pos_part a + neg_part b) == (pos_part b + neg_part a)

-- Python's `min(a, b)`
unfoldable pub min_ℤ : ℤ → ℤ → ℤ
min_ℤ a b = if ltb_ℤ b a then b else a

-- The smaller of two integers is one of them, and below both.
pub min_ℤ_lem :
    (a b : ℤ) → ((min_ℤ a b ≡ a) ⊎ (min_ℤ a b ≡ b)) × (min_ℤ a b ≤ℤ a) × (min_ℤ a b ≤ℤ b)
unfolding min_ℤ
min_ℤ_lem a b = ground arith

-- With these the operations stay shut under `omega`.
pub +ℤ_parts :
    (a b : ℤ)
    → pos_part (a +ℤ b) + neg_part a + neg_part b ≡ neg_part (a +ℤ b) + pos_part a + pos_part b
unfolding ◌+ℤ◌
+ℤ_parts a b = ground arith

pub -ℤ_parts :
    (a b : ℤ)
    → pos_part (a -ℤ b) + neg_part a + pos_part b ≡ neg_part (a -ℤ b) + pos_part a + neg_part b
unfolding ◌-ℤ◌
-ℤ_parts a b = ground arith

pub neg_parts : (a : ℤ) → (pos_part (neg a) ≡ neg_part a) × (neg_part (neg a) ≡ pos_part a)
unfolding neg
neg_parts (pos zero) = ground arith
neg_parts (pos (suc n)) = ground arith
neg_parts (negsuc n) = ground arith

-- How far a sum and a difference can fall below zero.
pub neg_part--ℤ_le : (a b : ℤ) → neg_part (a -ℤ b) ≤ neg_part a + pos_part b
unfolding ◌-ℤ◌
neg_part--ℤ_le a b = ground arith

pub neg_part-+ℤ_le : (a b : ℤ) → pos 0 ≤ℤ b → neg_part (a +ℤ b) ≤ neg_part a
unfolding ◌+ℤ◌
neg_part-+ℤ_le a b h = ground arith

pub neg_part_of_pos : (b : ℤ) → pos 0 <ℤ b → neg_part b ≡ 0
neg_part_of_pos b h = ground arith

-- one of the two parts is zero
pub parts_disjoint : (a : ℤ) → pos_part a * neg_part a ≡ 0
parts_disjoint (pos n) = omega arith
parts_disjoint (negsuc n) = omega arith

pub eq_of_parts : (a b : ℤ) → pos_part a + neg_part b ≡ pos_part b + neg_part a → a ≡ b
eq_of_parts a b h = ground arith

pub ruleset int_laws = (arith, +ℤ_parts, -ℤ_parts, neg_parts, eq_of_parts)

pub lt→ltb_ℤ : (a b : ℤ) → a <ℤ b → ltb_ℤ a b ≡ true
lt→ltb_ℤ a b h = ground arith

-- `round(num / den)` for a positive `den`: to the nearest integer, a tie to the even one.
pub round_half_even : ℕ → ℕ → ℕ
round_half_even num den =
    let q = num / den in
    let twice = 2 * (num % den) in
    if ltb twice den then q else if ltb den twice then q + 1 else q + q % 2

-- A ratio of at most `k` is rounded to at most `k`.
pub round_half_even-le : (num den k : ℕ) → 0 < den → num ≤ k * den → round_half_even num den ≤ k
unfolding round_half_even
round_half_even-le num den k h le = elim (dec_lt (num / den) k) [
  | yes below ↦ ground arith
  | no above ↦
      let at_most = div-le_of_le-mul den {m = num} {n = k} (omega arith) in
      let whole : num / den ≡ k = omega arith in
      let split : den * k + num % den ≡ num = rw (← whole) (div-add-mod num den) in
      let exact : num % den ≡ 0 = omega arith in rw (exact, whole) (ground arith)
]

-- Half of a number is rounded to less than it.
pub round_half_even-half : (n : ℕ) → 0 < n → round_half_even n 2 < n
unfolding round_half_even
round_half_even-half zero h = absurd (omega arith)
round_half_even-half (suc zero) h = omega arith
round_half_even-half (suc (suc n)) h =
    omega (arith, round_half_even-le (suc (suc n)) 2 (suc n) (omega arith) (omega arith))

-- `round(num / den)` of integers: the sign goes by the signs, the magnitude as above.
unfoldable pub round_ratio : ℤ → ℤ → ℤ
unfolding round_half_even
round_ratio (pos n) (pos d) = pos (round_half_even n d)
round_ratio (pos n) (negsuc d) = sub_ℕ 0 (round_half_even n (suc d))
round_ratio (negsuc n) (pos d) = sub_ℕ 0 (round_half_even (suc n) d)
round_ratio (negsuc n) (negsuc d) = pos (round_half_even (suc n) (suc d))

-- `k * a`
unfoldable pub times_ℕ : ℕ → ℤ → ℤ
times_ℕ k (pos n) = pos (k * n)
times_ℕ k (negsuc n) = sub_ℕ 0 (k * suc n)

-- A part of a whole, in tenths of a percent, is between 0 and 1000.
pub round_ratio_share :
    (a b : ℤ)
    → pos 0 ≤ℤ a
    → a ≤ℤ b
    → pos 0 <ℤ b
    → (pos 0 ≤ℤ round_ratio (times_ℕ 1000 a) b) × (round_ratio (times_ℕ 1000 a) b ≤ℤ pos 1000)
unfolding round_ratio times_ℕ
round_ratio_share (pos a) (pos b) low high h =
    (omega arith, omega (arith, round_half_even-le (1000 * a) b 1000 (omega arith) (omega arith)))
round_ratio_share (negsuc a) b low high h = absurd (omega arith)
round_ratio_share (pos a) (negsuc b) low high h = absurd (omega arith)

infixl 70 ◌*ℤ◌
unfoldable pub ◌*ℤ◌ : ℤ → ℤ → ℤ
a *ℤ b =
    sub_ℕ (pos_part a * pos_part b + neg_part a * neg_part b)
      (pos_part a * neg_part b + neg_part a * pos_part b)

pub one-*ℤ : (a : ℤ) → pos 1 *ℤ a ≡ a
unfolding ◌*ℤ◌
one-*ℤ a = ground arith

pub minus_one-*ℤ : (a : ℤ) → negsuc 0 *ℤ a ≡ neg a
unfolding ◌*ℤ◌ neg
minus_one-*ℤ a = ground arith

pub *ℤ-zero : (a : ℤ) → a *ℤ pos 0 ≡ pos 0
unfolding ◌*ℤ◌
*ℤ-zero a = ground arith

pub *ℤ-one : (a : ℤ) → a *ℤ pos 1 ≡ a
unfolding ◌*ℤ◌
*ℤ-one a = ground arith

pub +ℤ-zero : (a : ℤ) → a +ℤ pos 0 ≡ a
+ℤ-zero a = omega int_laws

neg-sub_ℕ : (a b : ℕ) → neg (sub_ℕ a b) ≡ sub_ℕ b a
unfolding neg
neg-sub_ℕ a b = ground arith

sub_ℕ-same : (a b c d : ℕ) → a ≡ c → b ≡ d → sub_ℕ a b ≡ sub_ℕ c d
sub_ℕ-same a b c d e f = ground arith

pub neg-*ℤ : (a b : ℤ) → neg a *ℤ b ≡ neg (a *ℤ b)
unfolding ◌*ℤ◌
neg-*ℤ a b =
    rw ((neg_parts a).0, (neg_parts a).1, neg-sub_ℕ)
      (sub_ℕ-same _ _ _ _ (omega arith) (omega arith))
