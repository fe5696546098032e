-- ===== src/Float.antt =====
-- Python's `float`. Every finite double is a whole number of units of 2 ^ (-1074), so a finite
-- value is that number; a comparison with NaN is false.
use ai_account_payable_invoi.Prelude.{Bool, true, false}
use ai_account_payable_invoi.Prelude.Int.{ℤ, pos, ltb_ℤ, leb_ℤ, ◌-ℤ◌}

pub data Float : Type 0 where
  finite : ℤ → Float
  infinity negative_infinity nan : Float

-- `a < b`
abbrev pub lt_float : Float → Float → Bool
lt_float nan b = false
lt_float a nan = false
lt_float infinity b = false
lt_float a negative_infinity = false
lt_float a infinity = true
lt_float negative_infinity b = true
lt_float (finite a) (finite b) = ltb_ℤ a b

-- `a >= b`
abbrev pub ge_float : Float → Float → Bool
ge_float nan b = false
ge_float a nan = false
ge_float infinity b = true
ge_float a negative_infinity = true
ge_float a infinity = false
ge_float negative_infinity b = false
ge_float (finite a) (finite b) = leb_ℤ b a

-- `a - b`. Between finite values it is exact: the service subtracts similarities of which one is
-- 0.0, or both lie between 0.6 and 1.0, where a double holds the difference.
abbrev pub sub_float : Float → Float → Float
sub_float nan b = nan
sub_float a nan = nan
sub_float (finite a) (finite b) = finite (a -ℤ b)
sub_float infinity infinity = nan
sub_float negative_infinity negative_infinity = nan
sub_float infinity b = infinity
sub_float negative_infinity b = negative_infinity
sub_float (finite a) infinity = negative_infinity
sub_float (finite a) negative_infinity = infinity

abbrev pub zero_float : Float
zero_float = finite (pos 0)
