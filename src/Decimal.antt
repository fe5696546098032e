-- ===== src/Decimal.antt =====
-- Python's `Decimal`: a coefficient over a power of ten. Sums and differences keep the longer of
-- the two fractions, as the decimal module does; they are exact up to its 28 digits.
pub mod Laws
use Prim.Native.Nat.{max}
use ai_account_payable_invoi.Prelude.{
  ℕ, ◌+◌, ◌-◌, ◌*◌, ◌^◌, ◌≤◌, ◌≡◌, Bool, List, [], ◌∷◌, leb, nat_beq, not, ◌&&◌, if◌then◌else◌,
}
use ai_account_payable_invoi.Prelude.Int
use ai_account_payable_invoi.Prelude.Int.{◌+ℤ◌, ◌-ℤ◌, ◌*ℕ◌}

-- `coefficient` / 10 ^ `scale`; a positive exponent is written out in the coefficient.
pub record Decimal : Type 0 where
  pub coefficient : Int.ℤ
  pub scale : ℕ

-- The coefficient at scale `k`, where `k` is at least the scale.
unfoldable pub ticks : ℕ → Decimal → Int.ℤ
ticks k d = d.coefficient *ℕ 10 ^ (k - d.scale)

-- `a + b` and `a - b`
unfoldable pub add : Decimal → Decimal → Decimal
unfolding ticks
add a b = let k = max a.scale b.scale in record { coefficient = ticks k a +ℤ ticks k b; scale = k }

unfoldable pub sub : Decimal → Decimal → Decimal
unfolding ticks
sub a b = let k = max a.scale b.scale in record { coefficient = ticks k a -ℤ ticks k b; scale = k }

-- `abs(a)`
unfoldable pub magnitude : Decimal → Decimal
magnitude a = record a { coefficient = Int.pos (Int.abs a.coefficient) }

-- `a <= b`
unfoldable pub le : Decimal → Decimal → Bool
unfolding ticks
le a b = let k = max a.scale b.scale in Int.leb_ℤ (ticks k a) (ticks k b)

-- `a > 0`, `a == 0`
unfoldable pub is_positive : Decimal → Bool
is_positive a = Int.ltb_ℤ (Int.pos 0) a.coefficient

unfoldable pub is_zero : Decimal → Bool
is_zero a = nat_beq (Int.abs a.coefficient) 0

abbrev pub zero_amount : Decimal
zero_amount = record { coefficient = Int.pos 0; scale = 0 }

-- `sum(amounts, Decimal("0"))`
unfoldable pub total_from : Decimal → List Decimal → Decimal
total_from acc [] = acc
total_from acc (d ∷ ds) = total_from (add acc d) ds

-- The exact quotient of a division, `dividend` / `divisor`.
pub record Quotient : Type 0 where
  pub dividend : Decimal
  pub divisor : Decimal

-- `quotient <= n / 100`, with a divisor other than zero: the order turns with its sign.
unfoldable pub le_percent : Quotient → ℕ → Bool
unfolding ticks is_positive
le_percent q n =
    let k = max q.dividend.scale q.divisor.scale in
    let hundredfold = ticks k q.dividend *ℕ 100 in
    let allowed = ticks k q.divisor *ℕ n in
    if is_positive q.divisor then Int.leb_ℤ hundredfold allowed else Int.leb_ℤ allowed hundredfold
