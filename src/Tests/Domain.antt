-- ===== src/Tests/Domain.antt =====
-- The domain's theorems at concrete values.
use mathlib.Core.List.{filter_map, flat_map}
use ai_account_payable_invoi.Prelude.{
  ◌+◌, ◌*◌, ◌≤◌, ◌≡◌, ◌≢◌, ◌↔◌, refl, true, false, some, List, [], ◌∷◌, All, arith, length,
  Bool-cases, ◌==◌, inl, inr, list_eq, nat_eq,
}
use ai_account_payable_invoi.Prelude.Int
use ai_account_payable_invoi.Prelude.Int.{◌+ℤ◌}
use ai_account_payable_invoi.Text.{Text, strip, text}
use ai_account_payable_invoi.Float.{finite}
use ai_account_payable_invoi.Decimal
use ai_account_payable_invoi.Decimal.{Decimal, ticks, total_from, zero_amount}
use ai_account_payable_invoi.Decimal.Laws.{ticks-total_from, sum_ticks}
use ai_account_payable_invoi.Domain.State.{
  received, extracting, auto_approved, failed, can_transition,
}
use ai_account_payable_invoi.Domain.State.Trails.{IsTrail, trail_length}
use ai_account_payable_invoi.Domain.Extraction.{critical_fields, lookup}
use ai_account_payable_invoi.Domain.Validation.{
  run_rules, has_blocking_failure, rule_po_amount_tolerance, rule_line_items_sum_to_subtotal,
  missing_required, rule_required_fields_present, rule_arithmetic_consistency,
  rule_po_currency_match, rule_po_vendor_mismatch, rule_duplicate_invoice_number,
}
use ai_account_payable_invoi.Domain.Validation.Clean.{IsFine, IsClean}
use ai_account_payable_invoi.Domain.Validation.Amounts.{negative_order-passes}
use ai_account_payable_invoi.Domain.Validation.Laws.{run_rules-IsClean}
use ai_account_payable_invoi.Domain.Matching.{
  VendorCandidate, match_po, match_vendor, normalize_code, has_code, has_number,
}
use ai_account_payable_invoi.Domain.Matching.Hits.{OnlyHit, Resolves, match_po_iff}
use ai_account_payable_invoi.Domain.Matching.Ranking.{IsFinite}
use ai_account_payable_invoi.Domain.Matching.Laws.{Evidence, match_vendor-Evidence}
use ai_account_payable_invoi.Domain.Approval.{decide_approval, auto_approve_confidence_threshold}
use ai_account_payable_invoi.Domain.Approval.Laws.{Clears, decide_approval_iff}
use ai_account_payable_invoi.Evaluation.Ratio.{IsSame, ratio_or}
use ai_account_payable_invoi.Evaluation.Discrepancy.{Scenario, tally, exit_code, recall, f1}
use ai_account_payable_invoi.Evaluation.Discrepancy.Quality.{quality_lem}
use ai_account_payable_invoi.Evaluation.Discrepancy.{scenarios}
use ai_account_payable_invoi.Evaluation.Discrepancy.Flagged.{
  is_missed, outcome_in, scenarios_flagged,
}
use ai_account_payable_invoi.Tests.Data.{
  ascii, cents, acme_invoice, acme_input, credit_order, credit_input, acme, other_vendor, orders,
  same_or_not, all_sure,
}

acme_input-IsFine : IsFine 2 acme_input
acme_input-IsFine = record {
  cents = omega arith;
  subtotal_fits = omega arith;
  tax_fits = omega arith;
  total_fits = omega arith;
  order_fits = omega arith;
}

run_rules-IsClean_example :
    (has_blocking_failure (run_rules ascii acme_input) ≡ false) ↔ IsClean ascii 2 acme_input
run_rules-IsClean_example = run_rules-IsClean ascii 2 acme_input acme_input-IsFine

-- The invoice of the example is clean.
passes : has_blocking_failure (run_rules ascii acme_input) ≡ false
unfolding has_blocking_failure run_rules rule_required_fields_present rule_arithmetic_consistency
    rule_line_items_sum_to_subtotal rule_po_amount_tolerance rule_po_currency_match
    rule_po_vendor_mismatch rule_duplicate_invoice_number missing_required Decimal.le Int.◌*ℕ◌
    Decimal.magnitude Decimal.sub Decimal.add Int.abs Int.◌-ℤ◌ ◌+ℤ◌ filter_map total_from
    Decimal.is_zero Decimal.le_percent flat_map strip
passes = refl

negative_order-passes_example : (rule_po_amount_tolerance credit_input).passed ≡ true
negative_order-passes_example =
    negative_order-passes credit_input credit_order (cents 11900) refl refl (omega arith)

decide_approval_iff_example :
    ((decide_approval true true true all_sure).outcome ≡ auto_approved) ↔ (
      (true ≡ true)
      × (true ≡ true)
      × (true ≡ true)
      × All (λ f. Clears (lookup f all_sure)) critical_fields)
decide_approval_iff_example = decide_approval_iff true true true all_sure

approves : (decide_approval true true true all_sure).outcome ≡ auto_approved
unfolding decide_approval auto_approve_confidence_threshold
approves = refl

match_po_iff_example :
    ((match_po ascii acme_invoice orders).po_id ≡ some 7)
    ↔ Resolves ascii (normalize_code ascii acme_invoice.purchase_order_number) orders 7
match_po_iff_example = match_po_iff ascii acme_invoice orders 7

finds_order : (match_po ascii acme_invoice orders).po_id ≡ some 7
unfolding match_po normalize_code flat_map has_number
finds_order = refl

same_or_not-IsFinite : (s t : Text) → IsFinite (same_or_not s t)
same_or_not-IsFinite s t = elim (Bool-cases (s == t)) [ inl y ↦ rw y tt | inr n ↦ rw n tt ]

match_vendor-Evidence_example :
    Evidence ascii same_or_not acme_invoice
      (other_vendor ∷ acme ∷ [])
      (match_vendor ascii same_or_not acme_invoice (other_vendor ∷ acme ∷ []))
match_vendor-Evidence_example =
    match_vendor-Evidence ascii same_or_not same_or_not-IsFinite acme_invoice
      (other_vendor ∷ acme ∷ [])

acme-OnlyHit :
    OnlyHit
      (has_code ascii (normalize_code ascii acme_invoice.supplier_tax_id))
      acme
      (other_vendor ∷ acme ∷ [])
unfolding has_code normalize_code flat_map
acme-OnlyHit = record {
  before = other_vendor ∷ [];
  after = [];
  split = refl;
  hit = refl;
  none_before = (refl, tt);
  none_after = tt;
}

has_tax_id : normalize_code ascii acme_invoice.supplier_tax_id ≢ []
unfolding normalize_code flat_map
has_tax_id e = cc

abbrev ranked_two : List VendorCandidate
ranked_two =
    record { vendor_id = 1; legal_name = []; score = finite (Int.pos 1) }
    ∷ record { vendor_id = 2; legal_name = []; score = finite (Int.pos 5) }
    ∷ []

ticks-total_from_example :
    ((total_from zero_amount (cents 150 ∷ cents 50 ∷ [])).scale ≤ 3)
    × (ticks 3 (total_from zero_amount (cents 150 ∷ cents 50 ∷ []))
        ≡ ticks 3 zero_amount +ℤ sum_ticks 3 (cents 150 ∷ cents 50 ∷ []))
ticks-total_from_example =
    ticks-total_from 3 zero_amount (cents 150 ∷ cents 50 ∷ []) (omega arith)
      (omega arith, (omega arith, tt))

short-IsTrail : IsTrail received (extracting ∷ failed ∷ [])
unfolding can_transition
short-IsTrail = (refl, (refl, tt))

trail_length_example : length (extracting ∷ failed ∷ []) ≤ 9
trail_length_example = trail_length received (extracting ∷ failed ∷ []) short-IsTrail

scenarios_flagged_example :
    let found = scenarios ascii same_or_not (λ n. n) (text "a") acme_invoice in
    (outcome_in "duplicate_invoice" found ≡ some true) × (outcome_in "no_po" found ≡ some true)
scenarios_flagged_example =
    scenarios_flagged ascii same_or_not (λ n. n) (text "a") acme_invoice (λ q. cc)

-- One discrepancy that was found, one that was missed, and a false alarm.
abbrev found_one : Scenario
found_one = record { name = "po_overage"; expected = true; actual = true }

abbrev judged_others : List Scenario
judged_others =
    record { name = "no_po"; expected = true; actual = false }
    ∷ record { name = "clean"; expected = false; actual = true }
    ∷ []

quality_lem_example :
    let t = tally (found_one ∷ judged_others) in
    ((exit_code (found_one ∷ judged_others) ≡ 0)
      ↔ All (λ x. is_missed x ≡ false) (found_one ∷ judged_others))
    × ((exit_code (found_one ∷ judged_others) ≡ 0) ↔ ((recall t).num ≡ (recall t).den))
    × IsSame (f1 t) (ratio_or 1 (2 * t.tp) (2 * t.tp + t.fp + t.fn))
quality_lem_example = quality_lem found_one judged_others
