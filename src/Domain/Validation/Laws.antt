-- ===== src/Domain/Validation/Laws.antt =====
-- The rules against what they demand.
use ai_account_payable_invoi.Prelude.{
  ℕ, ◌≡◌, ◌↔◌, nat_eq, false, Option, none, some, List, [], ◌∷◌, arith, ||-eq-false, list_beq_iff,
}
use ai_account_payable_invoi.Text.{Text, Unicode}
use ai_account_payable_invoi.Domain.Validation.{
  ValidationInput, PoSnapshot, DuplicateCandidate, run_rules, has_blocking_failure, blocks,
  rule_required_fields_present, rule_arithmetic_consistency, rule_line_items_sum_to_subtotal,
  rule_po_amount_tolerance, rule_po_currency_match, rule_po_vendor_mismatch,
  rule_duplicate_invoice_number, vendor_check, duplicate_check, currency_check, missing_required,
  normal_currency,
}
use ai_account_payable_invoi.Domain.Validation.Amounts.{
  arithmetic_iff, lines_check_passes, amount_iff,
}
use ai_account_payable_invoi.Domain.Validation.Clean.{
  Present, IsFine, Balances, KeepsToOrder, SameCurrency, SameVendor, NoDuplicate, IsClean,
}

required_iff :
    (inp : ValidationInput)
    → (blocks (rule_required_fields_present inp) ≡ false) ↔ (
        Present inp.invoice.supplier_name
        × Present inp.invoice.invoice_number
        × Present inp.invoice.invoice_date
        × Present inp.invoice.total)
unfolding rule_required_fields_present missing_required
required_iff inp = ground arith

vendor_iff :
    (p : Option PoSnapshot) (v : Option ℕ) → (blocks (vendor_check p v) ≡ false) ↔ SameVendor p v
unfolding vendor_check
vendor_iff p v = ground arith

duplicate_iff :
    (n : Option Text) (found : List DuplicateCandidate)
    → (blocks (duplicate_check n found) ≡ false) ↔ NoDuplicate n found
unfolding duplicate_check
duplicate_iff none found = ground arith
duplicate_iff (some []) found = ground arith
duplicate_iff (some (c ∷ n)) [] = ground arith
duplicate_iff (some (c ∷ n)) (d ∷ found) = ground arith

currency_iff :
    (u : Unicode) (p : Option PoSnapshot) (c : Option Text)
    → (blocks (currency_check u p c) ≡ false) ↔ SameCurrency u p c
unfolding currency_check
currency_iff u none c = ground arith
currency_iff u (some order) none = ground arith
currency_iff u (some order) (some []) = ground arith
currency_iff u (some order) (some (c ∷ cs)) =
    ground (arith, list_beq_iff (normal_currency u (c ∷ cs)) (normal_currency u order.currency))

module _ (u : Unicode) (k : ℕ) (inp : ValidationInput) (h : IsFine k inp) where
  arithmetic_rule_iff :
      (blocks (rule_arithmetic_consistency inp) ≡ false)
      ↔ Balances k inp.invoice.subtotal inp.invoice.tax_amount inp.invoice.total
  unfolding rule_arithmetic_consistency
  arithmetic_rule_iff = arithmetic_iff k _ _ _ h.cents h.subtotal_fits h.tax_fits h.total_fits

  lines_rule_passes : blocks (rule_line_items_sum_to_subtotal inp) ≡ false
  unfolding rule_line_items_sum_to_subtotal
  lines_rule_passes = lines_check_passes _ _

  amount_rule_iff :
      (blocks (rule_po_amount_tolerance inp) ≡ false)
      ↔ KeepsToOrder k inp.matched_po inp.invoice.total
  unfolding rule_po_amount_tolerance
  amount_rule_iff = amount_iff k _ _ h.order_fits h.total_fits

  currency_rule_iff :
      (blocks (rule_po_currency_match u inp) ≡ false)
      ↔ SameCurrency u inp.matched_po inp.invoice.currency
  unfolding rule_po_currency_match
  currency_rule_iff = currency_iff u _ _

  vendor_rule_iff :
      (blocks (rule_po_vendor_mismatch inp) ≡ false)
      ↔ SameVendor inp.matched_po inp.matched_vendor_id
  unfolding rule_po_vendor_mismatch
  vendor_rule_iff = vendor_iff _ _

  duplicate_rule_iff :
      (blocks (rule_duplicate_invoice_number inp) ≡ false)
      ↔ NoDuplicate inp.invoice.invoice_number inp.duplicate_candidates
  unfolding rule_duplicate_invoice_number
  duplicate_rule_iff = duplicate_iff _ _

  -- When no amount has more than k decimals (k at least 2), no rule blocks exactly when the
  -- invoice is clean: supplier, number, date and total are there; subtotal and tax, if given,
  -- add up to the total within 0.02; against a matched order, the total is within 2 % of a
  -- positive order total, a given currency is the order's, and a known vendor is the order's;
  -- and a number that is not empty has no duplicate.
  pub run_rules-IsClean : (has_blocking_failure (run_rules u inp) ≡ false) ↔ IsClean u k inp
  unfolding run_rules has_blocking_failure
  run_rules-IsClean = (
    λ e.
        let (a, e) = (||-eq-false _ _).0 e in
        let (b, e) = (||-eq-false _ _).0 e in
        let (c, e) = (||-eq-false _ _).0 e in
        let (d, e) = (||-eq-false _ _).0 e in
        let (f, e) = (||-eq-false _ _).0 e in
        let (g, e) = (||-eq-false _ _).0 e in
        let (j, e) = (||-eq-false _ _).0 e in
        let (supplier, number, date, total) = (required_iff inp).0 a in
        record {
          has_supplier = supplier;
          has_number = number;
          has_date = date;
          has_total = total;
          balances = arithmetic_rule_iff.0 b;
          keeps_to_order = amount_rule_iff.0 d;
          same_currency = currency_rule_iff.0 f;
          same_vendor = vendor_rule_iff.0 g;
          no_duplicate = duplicate_rule_iff.0 j;
        },
    λ c. rw (
      (required_iff inp).1 (c.has_supplier, c.has_number, c.has_date, c.has_total),
      arithmetic_rule_iff.1 c.balances,
      lines_rule_passes,
      amount_rule_iff.1 c.keeps_to_order,
      currency_rule_iff.1 c.same_currency,
      vendor_rule_iff.1 c.same_vendor,
      duplicate_rule_iff.1 c.no_duplicate,
    ),
  )
