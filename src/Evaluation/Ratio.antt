-- ===== src/Evaluation/Ratio.antt =====
-- Quotients of counts, as the evaluations divide them. The source rounds each to a double; here they
-- are the exact fractions.
use ai_account_payable_invoi.Prelude.{ℕ, ◌≡◌, ◌+◌, ◌*◌, ◌<◌, nat_beq, if◌then◌else◌}

pub record Ratio : Type 0 where
  pub num : ℕ
  pub den : ℕ

abbrev pub whole : ℕ → Ratio
whole n = record { num = n; den = 1 }

-- `a / b if b else n`
abbrev pub ratio_or : ℕ → ℕ → ℕ → Ratio
ratio_or n a b = if nat_beq b 0 then whole n else record { num = a; den = b }

abbrev pub plus : Ratio → Ratio → Ratio
plus x y = record { num = x.num * y.den + y.num * x.den; den = x.den * y.den }

abbrev pub times : Ratio → Ratio → Ratio
times x y = record { num = x.num * y.num; den = x.den * y.den }

abbrev pub over : Ratio → Ratio → Ratio
over x y = record { num = x.num * y.den; den = x.den * y.num }

-- The two are fractions, of the same value.
pub record IsSame (x y : Ratio) : Type 0 where
  pub left : 0 < x.den
  pub right : 0 < y.den
  pub crossed : x.num * y.den ≡ y.num * x.den
