-- ===== src/Decimal/Laws.antt =====
-- What the operations on amounts mean: at any common scale they are the operations on integers.
use native.Mathlib.Nat.{pow-suc, add-zero, add-suc, mul_assoc, mul-le-mul_right}
use Prim.Native.Nat.{max}
use ai_account_payable_invoi.Prelude.{
  leb_iff, ℕ, zero, suc, ◌+◌, ◌-◌, ◌*◌, ◌^◌, ◌≤◌, ◌<◌, ◌≡◌, ◌↔◌, refl, ◌∙◌, ap, true, false, arith,
  List, [], ◌∷◌, All,
}
use ai_account_payable_invoi.Prelude.Int
use ai_account_payable_invoi.Prelude.Int.{
  ◌+ℤ◌, ◌-ℤ◌, ◌*ℕ◌, ◌≤ℤ◌, ◌<ℤ◌, int_laws, *ℕ_assoc, *ℕ_parts, *ℕ_right_comm, +ℤ-*ℕ, -ℤ-*ℕ,
  *ℕ-le_iff,
}
use ai_account_payable_invoi.Decimal.{
  Decimal, ticks, add, sub, magnitude, le, is_positive, is_zero, total_from, Quotient, le_percent,
}

pub pow-add : (m n : ℕ) → 10 ^ (m + n) ≡ 10 ^ m * 10 ^ n
pow-add m zero = rw add-zero (omega arith)
pow-add m (suc n) = rw (add-suc, pow-suc, pow-add m n, pow-suc, mul_assoc) refl

pow_pos : (n : ℕ) → 0 < 10 ^ n
pow_pos zero = omega arith
pow_pos (suc n) = omega (arith, pow-suc 10 n, pow_pos n)

-- A finer scale multiplies the coefficient by a power of ten.
ticks_rescale :
    (m k : ℕ) (d : Decimal) → d.scale ≤ m → m ≤ k → ticks k d ≡ ticks m d *ℕ 10 ^ (k - m)
unfolding ticks
ticks_rescale m k d h j =
    let c = d.coefficient in
    let split : k - d.scale ≡ (m - d.scale) + (k - m) = omega arith in rw (split, pow-add, *ℕ_assoc)

ticks_lem : (k : ℕ) (d : Decimal) → ticks k d ≡ d.coefficient *ℕ 10 ^ (k - d.scale)
unfolding ticks
ticks_lem k d = refl

module _ (k : ℕ) (a b : Decimal) (ha : a.scale ≤ k) (hb : b.scale ≤ k) where
  -- A sum, a difference and a comparison may be read off at any scale that both amounts have.
  pub ticks-add : ticks k (add a b) ≡ ticks k a +ℤ ticks k b
  unfolding add
  ticks-add =
      let m = max a.scale b.scale in
      rw
        (
          ticks_rescale m k a (omega arith) (omega arith),
          ticks_rescale m k b (omega arith) (omega arith),
          ← +ℤ-*ℕ,
        )
        (ticks_lem k _)

  pub ticks-sub : ticks k (sub a b) ≡ ticks k a -ℤ ticks k b
  unfolding sub
  ticks-sub =
      let m = max a.scale b.scale in
      rw
        (
          ticks_rescale m k a (omega arith) (omega arith),
          ticks_rescale m k b (omega arith) (omega arith),
          ← -ℤ-*ℕ,
        )
        (ticks_lem k _)

  pub scale-add : (add a b).scale ≤ k
  unfolding add
  scale-add = omega arith

  pub scale-sub : (sub a b).scale ≤ k
  unfolding sub
  scale-sub = omega arith

  pub scale-magnitude : (magnitude (sub a b)).scale ≤ k
  unfolding magnitude sub
  scale-magnitude = omega arith

  pub le_iff_ticks : (le a b ≡ true) ↔ (ticks k a ≤ℤ ticks k b)
  unfolding le
  le_iff_ticks =
      let m = max a.scale b.scale in
      let same = *ℕ-le_iff (ticks m a) (ticks m b) (10 ^ (k - m)) (pow_pos (k - m)) in
      rw
        (
          ticks_rescale m k a (omega arith) (omega arith),
          ticks_rescale m k b (omega arith) (omega arith),
        )
        (λ h. same.1 ((leb_iff _ _).0 h), λ h. (leb_iff _ _).1 (same.0 h))

abs-*ℕ : (c : Int.ℤ) (p : ℕ) → Int.pos (Int.abs c) *ℕ p ≡ Int.pos (Int.abs (c *ℕ p))
unfolding ◌*ℕ◌ Int.abs
abs-*ℕ (Int.pos n) p = ground arith
abs-*ℕ (Int.negsuc n) p = ground arith

pub ticks-magnitude : (k : ℕ) (d : Decimal) → ticks k (magnitude d) ≡ Int.pos (Int.abs (ticks k d))
unfolding magnitude ticks
ticks-magnitude k d = abs-*ℕ d.coefficient (10 ^ (k - d.scale))

scale_of_magnitude : (d : Decimal) → (magnitude d).scale ≡ d.scale
unfolding magnitude
scale_of_magnitude d = refl

-- The sum of the ticks, which is independent of how the amounts are written.
abbrev pub sum_ticks : ℕ → List Decimal → Int.ℤ
sum_ticks k [] = Int.pos 0
sum_ticks k (d ∷ ds) = ticks k d +ℤ sum_ticks k ds

abbrev pub Fits : ℕ → List Decimal → Type 0
Fits k = All (λ d. d.scale ≤ k)

pub ticks-total_from :
    (k : ℕ) (acc : Decimal) (ds : List Decimal)
    → acc.scale ≤ k
    → Fits k ds
    → ((total_from acc ds).scale ≤ k)
      × (ticks k (total_from acc ds) ≡ ticks k acc +ℤ sum_ticks k ds)
unfolding total_from
ticks-total_from k acc [] h f = (h, omega int_laws)
ticks-total_from k acc (d ∷ ds) h f =
    let rest = ticks-total_from k (add acc d) ds (scale-add k acc d h f.0) f.1 in
    (
      rest.0,
      rest.1
          ∙ omega (
            int_laws,
            ap Int.pos_part (ticks-add k acc d h f.0),
            ap Int.neg_part (ticks-add k acc d h f.0),
          ),
    )

pub is_positive_iff_ticks :
    (k : ℕ) (d : Decimal) → (is_positive d ≡ true) ↔ (Int.pos 0 <ℤ ticks k d)
unfolding is_positive ticks
is_positive_iff_ticks k d =
    let p = 10 ^ (k - d.scale) in
    let same = *ℕ-le_iff d.coefficient (Int.pos 0) p (pow_pos (k - d.scale)) in
    ground (arith, same.0, same.1, *ℕ_parts (Int.pos 0) p)

module _ (k n : ℕ) (q : Quotient) (hd : q.dividend.scale ≤ k) (hs : q.divisor.scale ≤ k) where
  -- With a positive divisor the quotient is at most n % exactly when a hundred times the dividend
  -- is at most n times the divisor.
  pub le_percent_iff :
      Int.pos 0 <ℤ ticks k q.divisor
      → (le_percent q n ≡ true) ↔ (ticks k q.dividend *ℕ 100 ≤ℤ ticks k q.divisor *ℕ n)
  unfolding le_percent
  le_percent_iff positive =
      let m = max q.dividend.scale q.divisor.scale in
      let f = 10 ^ (k - m) in
      let x = ticks m q.dividend in
      let y = ticks m q.divisor in
      let same = *ℕ-le_iff (x *ℕ 100) (y *ℕ n) f (pow_pos (k - m)) in
      rw
        (
          (is_positive_iff_ticks k q.divisor).1 positive,
          ticks_rescale m k q.dividend (omega arith) (omega arith),
          ticks_rescale m k q.divisor (omega arith) (omega arith),
          *ℕ_right_comm x f 100,
          *ℕ_right_comm y f n,
        )
        (λ h. same.1 ((leb_iff _ _).0 h), λ h. (leb_iff _ _).1 (same.0 h))

-- Over a divisor that is not positive, every non-negative dividend passes.
pub le_percent_negative :
    (n : ℕ) (d : Decimal) (divisor : Decimal)
    → is_positive divisor ≡ false
    → le_percent (record { dividend = magnitude d; divisor = divisor }) n ≡ true
unfolding le_percent ◌*ℕ◌ magnitude
le_percent_negative n d divisor h =
    let m = max d.scale divisor.scale in
    let below = is_positive_iff_ticks m divisor in
    let dividend = ticks-magnitude m d in
    rw (h, scale_of_magnitude d, dividend)
      ((leb_iff _ _).1 (
        ground (
          arith,
          below.1,
          h,
          *ℕ_parts (Int.pos (Int.abs (ticks m d))) 100,
          *ℕ_parts (ticks m divisor) n,
          mul-le-mul_right {m = Int.pos_part (ticks m divisor)} {n = Int.neg_part (ticks m divisor)}
              n,
        )))

pub is_zero-not_positive : (d : Decimal) → is_zero d ≡ true → is_positive d ≡ false
unfolding is_zero is_positive Int.abs
is_zero-not_positive d h = ground arith
