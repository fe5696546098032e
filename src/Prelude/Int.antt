-- ===== src/Prelude/Int.antt =====
-- Signed integers over the native numbers, under the library's names. Sums and orders go through
-- the two parts of an integer, which are numbers that `omega` reads.
use Prim.Native.Nat.{ℕ, suc, ◌+◌, ◌-◌, ◌*◌, ◌≤◌, ◌<◌}
use mathlib.Core.Path.{◌≡◌, ap}
use mathlib.Core.Logic.{◌↔◌}
use mathlib.Core.Bool.{Bool}
use native.Mathlib.Omega.{arith}
use native.Mathlib.Nat.{mul_comm, le_of_mul-le-mul_right, mul-le-mul_right}
use ai_account_payable_invoi.Prelude.Tests.{ltb, leb, if◌then◌else◌}

-- `negsuc n` is -(n + 1).
pub data ℤ : Type 0 where
  pos : ℕ → ℤ
  negsuc : ℕ → ℤ

abbrev pub pos_part : ℤ → ℕ
pos_part (pos n) = n
pos_part (negsuc n) = 0

abbrev pub neg_part : ℤ → ℕ
neg_part (pos n) = 0
neg_part (negsuc n) = suc n

-- a - b, as an integer.
abbrev pub sub_ℕ : ℕ → ℕ → ℤ
sub_ℕ a b = if leb b a then pos (a - b) else negsuc (b - a - 1)

infixl 65 ◌+ℤ◌ ◌-ℤ◌
infixl 70 ◌*ℕ◌
infix 50 ◌≤ℤ◌ ◌<ℤ◌
unfoldable pub ◌+ℤ◌ : ℤ → ℤ → ℤ
a +ℤ b = sub_ℕ (pos_part a + pos_part b) (neg_part a + neg_part b)

unfoldable pub ◌-ℤ◌ : ℤ → ℤ → ℤ
a -ℤ b = sub_ℕ (pos_part a + neg_part b) (neg_part a + pos_part b)

-- An integer times a natural number.
unfoldable pub ◌*ℕ◌ : ℤ → ℕ → ℤ
a *ℕ k = sub_ℕ (pos_part a * k) (neg_part a * k)

unfoldable pub abs : ℤ → ℕ
abs a = pos_part a + neg_part a

abbrev pub ◌≤ℤ◌ : ℤ → ℤ → Type 0
a ≤ℤ b = pos_part a + neg_part b ≤ pos_part b + neg_part a

abbrev pub ◌<ℤ◌ : ℤ → ℤ → Type 0
a <ℤ b = pos_part a + neg_part b < pos_part b + neg_part a

abbrev pub leb_ℤ : ℤ → ℤ → Bool
leb_ℤ a b = leb (pos_part a + neg_part b) (pos_part b + neg_part a)

abbrev pub ltb_ℤ : ℤ → ℤ → Bool
ltb_ℤ a b = ltb (pos_part a + neg_part b) (pos_part b + neg_part a)

-- With these the operations can stay shut.
pub +ℤ_parts :
    (a b : ℤ)
    → pos_part (a +ℤ b) + neg_part a + neg_part b ≡ neg_part (a +ℤ b) + pos_part a + pos_part b
unfolding ◌+ℤ◌
+ℤ_parts a b = ground arith

pub -ℤ_parts :
    (a b : ℤ)
    → pos_part (a -ℤ b) + neg_part a + pos_part b ≡ neg_part (a -ℤ b) + pos_part a + neg_part b
unfolding ◌-ℤ◌
-ℤ_parts a b = ground arith

pub *ℕ_parts :
    (a : ℤ) (k : ℕ) → pos_part (a *ℕ k) + neg_part a * k ≡ neg_part (a *ℕ k) + pos_part a * k
unfolding ◌*ℕ◌
*ℕ_parts a k = ground arith

pub eq_of_parts : (a b : ℤ) → pos_part a + neg_part b ≡ pos_part b + neg_part a → a ≡ b
eq_of_parts a b h = ground arith

pub ruleset int_laws = (arith, +ℤ_parts, -ℤ_parts, *ℕ_parts, eq_of_parts)

-- Times a number, a sum is the sum of the products, and factors multiply.
pub +ℤ-*ℕ : (a b : ℤ) (k : ℕ) → (a +ℤ b) *ℕ k ≡ a *ℕ k +ℤ b *ℕ k
+ℤ-*ℕ a b k = omega (int_laws, ap (λ (t : ℕ). t * k) (+ℤ_parts a b))

pub -ℤ-*ℕ : (a b : ℤ) (k : ℕ) → (a -ℤ b) *ℕ k ≡ a *ℕ k -ℤ b *ℕ k
-ℤ-*ℕ a b k = omega (int_laws, ap (λ (t : ℕ). t * k) (-ℤ_parts a b))

pub *ℕ_assoc : (a : ℤ) (j k : ℕ) → a *ℕ j *ℕ k ≡ a *ℕ (j * k)
*ℕ_assoc a j k = omega (int_laws, ap (λ (t : ℕ). t * k) (*ℕ_parts a j))

pub *ℕ_right_comm : (a : ℤ) (j k : ℕ) → a *ℕ j *ℕ k ≡ a *ℕ k *ℕ j
*ℕ_right_comm a j k = rw (*ℕ_assoc a j k, mul_comm j k, ← *ℕ_assoc)

-- A positive factor keeps and reflects the order.
pub *ℕ-le_iff : (a b : ℤ) (k : ℕ) → 0 < k → (a *ℕ k ≤ℤ b *ℕ k) ↔ (a ≤ℤ b)
*ℕ-le_iff a b k h = (
  λ le. le_of_mul-le-mul_right {k = k} (omega (arith, *ℕ_parts a k, *ℕ_parts b k)) h,
  λ le. omega (arith, *ℕ_parts a k, *ℕ_parts b k, product le),
)
  where
    product : a ≤ℤ b → (pos_part a + neg_part b) * k ≤ (pos_part b + neg_part a) * k
    product le = mul-le-mul_right k le
