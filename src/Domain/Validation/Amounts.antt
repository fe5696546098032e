-- ===== src/Domain/Validation/Amounts.antt =====
-- The rules on amounts, over whole numbers of ticks.
use ai_account_payable_invoi.Prelude.{
  ℕ, ◌+◌, ◌-◌, ◌*◌, ◌^◌, ◌≤◌, ◌≡◌, ◌↔◌, ◌⊎◌, nat_eq, refl, ◌∙◌, ap, true, false, Option, none, some,
  List, [], ◌∷◌, arith, length, nat_beq, Bool-cases, inl, inr,
}
use ai_account_payable_invoi.Prelude.Int
use ai_account_payable_invoi.Prelude.Int.{
  ◌+ℤ◌, ◌-ℤ◌, ◌*ℕ◌, ◌≤ℤ◌, ◌<ℤ◌, int_laws, *ℕ_assoc, *ℕ_parts,
}
use ai_account_payable_invoi.Decimal
use ai_account_payable_invoi.Decimal.{Decimal, ticks, Quotient, is_positive, is_zero, zero_amount}
use ai_account_payable_invoi.Decimal.Laws.{
  le_iff_ticks, ticks-sub, ticks-add, ticks-magnitude, scale-add, scale-magnitude, le_percent_iff,
  le_percent_negative, is_positive_iff_ticks, is_zero-not_positive, pow-add, Fits, sum_ticks,
  ticks-total_from,
}
use ai_account_payable_invoi.Domain.Extraction.{LineItem}
use ai_account_payable_invoi.Domain.Validation.{
  ValidationInput, PoSnapshot, amount_tolerance, blocks, rule_line_items_sum_to_subtotal,
  rule_po_amount_tolerance, arithmetic_check, lines_check, tolerance_check, amount_check, priced,
}
use ai_account_payable_invoi.Domain.Validation.Clean.{
  FitsScale, Close, Balances, OrderFits, KeepsToOrder,
}

ticks-tolerance : (k : ℕ) → 2 ≤ k → ticks k amount_tolerance *ℕ 100 ≡ Int.pos (2 * 10 ^ k)
unfolding ticks ◌*ℕ◌
ticks-tolerance k h =
    let split : k ≡ (k - 2) + 2 = omega arith in
    let power : 10 ^ k ≡ 10 ^ (k - 2) * 100 = ap (λ (t : ℕ). 10 ^ t) split ∙ pow-add (k - 2) 2 in
    ground (arith, power)

one_sign : (a : Int.ℤ) → (Int.pos_part a ≡ 0) ⊎ (Int.neg_part a ≡ 0)
one_sign a = ground arith

-- The code's tolerance test, in ticks.
within_tolerance_iff :
    (k : ℕ) (a b : Decimal)
    → 2 ≤ k
    → a.scale ≤ k
    → b.scale ≤ k
    → (Decimal.le (Decimal.magnitude (Decimal.sub a b)) amount_tolerance ≡ true)
      ↔ Close k (ticks k a) (ticks k b)
within_tolerance_iff k a b h ha hb =
    let diff = Decimal.magnitude (Decimal.sub a b) in
    let test = le_iff_ticks k diff amount_tolerance (scale-magnitude k a b ha hb) h in
    let off : ticks k diff ≡ Int.pos (Int.abs (ticks k a -ℤ ticks k b)) =
      rw ticks-magnitude (rw (ticks-sub k a b ha hb) refl) in
    let tolerance = *ℕ_parts (ticks k amount_tolerance) 100 in
    let plus = ap Int.pos_part (ticks-tolerance k h) in
    let minus = ap Int.neg_part (ticks-tolerance k h) in
    let off_plus = ap Int.pos_part off in
    let off_minus = ap Int.neg_part off in
    (λ e. let le = test.0 e in omega arith, λ c. test.1 (omega arith))

pub arithmetic_iff :
    (k : ℕ) (s t x : Option Decimal)
    → 2 ≤ k
    → FitsScale k s
    → FitsScale k t
    → FitsScale k x
    → (blocks (arithmetic_check s t x) ≡ false) ↔ Balances k s t x
unfolding arithmetic_check
arithmetic_iff k (some s) (some t) (some x) h hs ht hx =
    let test = within_tolerance_iff k (Decimal.add s t) x h (scale-add k s t hs ht) hx in
    let exact = rw (ticks-add k s t hs ht) at test in ground (arith, exact.0, exact.1)
arithmetic_iff k _ _ _ h hs ht hx = ground arith

pub lines_check_passes :
    (items : List LineItem) (subtotal : Option Decimal)
    → blocks (lines_check items subtotal) ≡ false
unfolding lines_check
lines_check_passes [] subtotal = refl
lines_check_passes (_ ∷ _) none = refl
lines_check_passes (item ∷ items) (some subtotal) = ground arith

-- The percentage test of the code, in ticks, at a positive order total.
within_percent_iff :
    (k : ℕ) (order total : Decimal)
    → order.scale ≤ k
    → total.scale ≤ k
    → Int.pos 0 <ℤ ticks k order
    → let off = Decimal.magnitude (Decimal.sub total order) in
      (Decimal.le_percent (record { dividend = off; divisor = order }) 2 ≡ true)
      ↔ (Int.abs (ticks k total -ℤ ticks k order) * 100 ≤ Int.pos_part (ticks k order) * 2)
within_percent_iff k order total hp hx positive =
    let diff = Decimal.magnitude (Decimal.sub total order) in
    let q : Quotient = record { dividend = diff; divisor = order } in
    let test = le_percent_iff k 2 q (scale-magnitude k total order hx hp) hp positive in
    let off : ticks k diff ≡ Int.pos (Int.abs (ticks k total -ℤ ticks k order)) =
      rw ticks-magnitude (rw (ticks-sub k total order hx hp) refl) in
    let hundredfold = *ℕ_parts (ticks k diff) 100 in
    let double = *ℕ_parts (ticks k order) 2 in
    let plus = ap Int.pos_part off in
    let minus = ap Int.neg_part off in
    let sign = one_sign (ticks k order) in
    (λ e. let le = test.0 e in omega arith, λ c. test.1 (omega arith))

tolerance_iff :
    (k : ℕ) (order : PoSnapshot) (total : Decimal)
    → order.total.scale ≤ k
    → total.scale ≤ k
    → (blocks (tolerance_check order total) ≡ false) ↔ KeepsToOrder k (some order) (some total)
unfolding tolerance_check
tolerance_iff k order total hp hx = elim (Bool-cases (Decimal.is_positive order.total)) [
  | inl y ↦
      let positive = (is_positive_iff_ticks k order.total).0 y in
      let test = within_percent_iff k order.total total hp hx positive in
      ground (arith, test.0, test.1, is_zero-not_positive order.total)
  | inr n ↦
      let below = (is_positive_iff_ticks k order.total).1 in
      let passes = le_percent_negative 2 (Decimal.sub total order.total) order.total n in
      ground (arith, below, passes)
]

pub amount_iff :
    (k : ℕ) (p : Option PoSnapshot) (x : Option Decimal)
    → OrderFits k p
    → FitsScale k x
    → (blocks (amount_check p x) ≡ false) ↔ KeepsToOrder k p x
unfolding amount_check
amount_iff k none x hp hx = ground arith
amount_iff k (some order) none hp hx = ground arith
amount_iff k (some order) (some total) hp hx = tolerance_iff k order total hp hx

negative_not_zero : (c : Int.ℤ) → c <ℤ Int.pos 0 → nat_beq (Int.abs c) 0 ≡ false
unfolding Int.abs
negative_not_zero (Int.pos n) h = ground arith
negative_not_zero (Int.negsuc n) h = ground arith

ticks_zero : (k : ℕ) → ticks k zero_amount ≡ Int.pos 0
unfolding ticks ◌*ℕ◌
ticks_zero k = ground arith

-- With an order whose total is negative, every invoice total passes the tolerance rule.
pub negative_order-passes :
    (inp : ValidationInput) (order : PoSnapshot) (total : Decimal)
    → inp.matched_po ≡ some order
    → inp.invoice.total ≡ some total
    → order.total.coefficient <ℤ Int.pos 0
    → (rule_po_amount_tolerance inp).passed ≡ true
unfolding rule_po_amount_tolerance amount_check tolerance_check is_positive is_zero
negative_order-passes inp order total p t below =
    let not_positive : is_positive order.total ≡ false = ground arith in
    let not_zero : is_zero order.total ≡ false = negative_not_zero order.total.coefficient below in
    let passes = le_percent_negative 2 (Decimal.sub total order.total) order.total not_positive in
    rw (p, t, not_zero) passes

-- The lines are priced, all of them, and add up to the subtotal within 0.02.
abbrev pub LinesAddUp : ℕ → List LineItem → Option Decimal → Type 0
LinesAddUp k [] subtotal = Unit
LinesAddUp k (_ ∷ _) none = Unit
LinesAddUp k (item ∷ items) (some subtotal) =
    (length (priced (item ∷ items)) ≡ length (item ∷ items))
    × Close k (sum_ticks k (priced (item ∷ items))) (ticks k subtotal)

lines_check_iff :
    (k : ℕ) (items : List LineItem) (subtotal : Option Decimal)
    → 2 ≤ k
    → Fits k (priced items)
    → FitsScale k subtotal
    → ((lines_check items subtotal).passed ≡ true) ↔ LinesAddUp k items subtotal
unfolding lines_check
lines_check_iff k [] subtotal h hl hs = ground arith
lines_check_iff k (item ∷ items) none h hl hs = ground arith
lines_check_iff k (item ∷ items) (some subtotal) h hl hs =
    let all = priced (item ∷ items) in
    let (fits, sum) = ticks-total_from k zero_amount all (omega arith) hl in
    let test = within_tolerance_iff k (Decimal.total_from zero_amount all) subtotal h fits hs in
    let same : ticks k (Decimal.total_from zero_amount all) ≡ sum_ticks k all =
      sum ∙ (rw (ticks_zero k) (omega int_laws)) in
    let exact = rw same at test in ground (arith, exact.0, exact.1)

-- When no amount has more than k decimals (k at least 2), the rule on line items passes exactly
-- when there are no lines or no subtotal, or every line is priced and the lines add up to the
-- subtotal within 0.02.
pub line_items_rule_iff :
    (k : ℕ) (inp : ValidationInput)
    → 2 ≤ k
    → Fits k (priced inp.invoice.line_items)
    → FitsScale k inp.invoice.subtotal
    → ((rule_line_items_sum_to_subtotal inp).passed ≡ true)
      ↔ LinesAddUp k inp.invoice.line_items inp.invoice.subtotal
unfolding rule_line_items_sum_to_subtotal
line_items_rule_iff k inp h hl hs = lines_check_iff k _ _ h hl hs
