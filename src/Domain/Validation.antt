-- ===== src/Domain/Validation.antt =====
-- The financial rules, src/invoice_ops/domain/validation.py, and what they are run on.
pub mod Duplicate
pub mod Clean
pub mod Amounts
pub mod Laws
use Prim.Native.String.{String}
use ai_account_payable_invoi.Prelude.{
  ℕ, ◌-◌, Bool, true, false, ◌&&◌, ◌||◌, not, Option, none, some, List, [], ◌∷◌, ◌++◌, map, any,
  length, ◌==◌, nat_eq, list_eq, nat_beq, if◌then◌else◌,
}
use mathlib.Core.List.{filter_map}
use ai_account_payable_invoi.Prelude.Int
use ai_account_payable_invoi.Text.{Text, Unicode, strip, uppercase, is_falsy}
use ai_account_payable_invoi.Decimal
use ai_account_payable_invoi.Decimal.{Decimal, Quotient, zero_amount}
use ai_account_payable_invoi.Domain.RuleResults.{
  Detail, Direction, Message, RuleName, RuleResult, Severity, all_present, amounts_not_all_present,
  arithmetic, arithmetic_consistency, candidates, currency_differs, currency_matches,
  duplicate_invoice_number, duplicate_of, error, exceeds, info, is_under,
  line_items_sum_to_subtotal, lines, lines_differ, lines_match, missing, missing_fields,
  no_currency, no_detail, no_duplicate, no_invoice_number, no_lines_or_subtotal, no_po_matched,
  no_total_for_po, off_po, po, po_amount_tolerance, po_currency_match, po_of_other_vendor,
  po_of_vendor, po_total_zero, po_vendor_mismatch, required_fields_present, skipped,
  supplier_unknown, total_differs, total_matches, unpriced_lines, warned, warning, within_po,
}
use ai_account_payable_invoi.Domain.State.{InvoiceStatus}
use ai_account_payable_invoi.Domain.Extraction.{ExtractedInvoice, LineItem}

-- Decimal("0.02")
abbrev pub amount_tolerance : Decimal
amount_tolerance = record { coefficient = Int.pos 2; scale = 2 }

-- Decimal("0.02"), as a number of percent.
abbrev pub po_tolerance_pct : ℕ
po_tolerance_pct = 2

pub record PoSnapshot : Type 0 where
  pub po_number : Text
  pub currency : Text
  pub total : Decimal
  pub vendor_id : ℕ

pub record DuplicateCandidate : Type 0 where
  pub invoice_id : ℕ
  pub invoice_number : Text
  pub status : InvoiceStatus

pub record ValidationInput : Type 0 where
  pub invoice : ExtractedInvoice
  pub matched_po : Option PoSnapshot
  pub matched_vendor_id : Option ℕ
  pub duplicate_candidates : List DuplicateCandidate

-- The names of `REQUIRED_FIELDS` whose value is `None`, in that order.
abbrev unless_present {ℓ} : {A : Type ℓ} → String → Option A → List String → List String
unless_present name none rest = name ∷ rest
unless_present name (some _) rest = rest

unfoldable pub missing_required : ExtractedInvoice → List String
missing_required i = unless_present "supplier_name" i.supplier_name (
    unless_present "invoice_number" i.invoice_number
      (unless_present "invoice_date" i.invoice_date (unless_present "total" i.total [])))

abbrev is_nil {ℓ} : {A : Type ℓ} → List A → Bool
is_nil [] = true
is_nil (_ ∷ _) = false

unfoldable pub rule_required_fields_present : ValidationInput → RuleResult
rule_required_fields_present inp =
    let absent = missing_required inp.invoice in
    let ok = is_nil absent in
    record {
      rule = required_fields_present;
      severity = if ok then info else error;
      passed = ok;
      message = if ok then all_present else missing_fields absent;
      detail = missing absent;
    }

pub arithmetic_check : Option Decimal → Option Decimal → Option Decimal → RuleResult
arithmetic_check (some subtotal) (some tax) (some total) =
    let expected = Decimal.add subtotal tax in
    let diff = Decimal.magnitude (Decimal.sub expected total) in
    let ok = Decimal.le diff amount_tolerance in
    record {
      rule = arithmetic_consistency;
      severity = if ok then info else error;
      passed = ok;
      message = if ok then total_matches else total_differs subtotal tax expected total;
      detail = arithmetic subtotal tax total;
    }
arithmetic_check _ _ _ = skipped arithmetic_consistency amounts_not_all_present

unfoldable pub rule_arithmetic_consistency : ValidationInput → RuleResult
unfolding arithmetic_check
rule_arithmetic_consistency inp =
    let i = inp.invoice in arithmetic_check i.subtotal i.tax_amount i.total

unfoldable pub priced : List LineItem → List Decimal
priced items = filter_map (λ li. LineItem.line_total li) items

pub lines_check : List LineItem → Option Decimal → RuleResult
unfolding priced
lines_check [] subtotal = skipped line_items_sum_to_subtotal no_lines_or_subtotal
lines_check (_ ∷ _) none = skipped line_items_sum_to_subtotal no_lines_or_subtotal
lines_check (item ∷ items) (some subtotal) =
    let all = item ∷ items in
    let amounts = priced all in
    let total_lines = Decimal.total_from zero_amount amounts in
    let diff = Decimal.magnitude (Decimal.sub total_lines subtotal) in
    let ok = Decimal.le diff amount_tolerance in
    if nat_beq (length amounts) (length all)
    then record {
      rule = line_items_sum_to_subtotal;
      severity = if ok then info else warning;
      passed = ok;
      message = if ok then lines_match else lines_differ total_lines subtotal;
      detail = lines total_lines subtotal;
    }
    else warned line_items_sum_to_subtotal
        (unpriced_lines (length all - length amounts) (length all))

unfoldable pub rule_line_items_sum_to_subtotal : ValidationInput → RuleResult
unfolding lines_check
rule_line_items_sum_to_subtotal inp = lines_check inp.invoice.line_items inp.invoice.subtotal

tolerance_check : PoSnapshot → Decimal → RuleResult
tolerance_check order invoice_total =
    let diff = Decimal.sub invoice_total order.total in
    let off = Decimal.magnitude diff in
    let pct : Quotient = record { dividend = off; divisor = order.total } in
    let ok = Decimal.le_percent pct po_tolerance_pct in
    let direction = if Decimal.is_positive diff then exceeds else is_under in
    if Decimal.is_zero order.total
    then warned po_amount_tolerance (po_total_zero order.po_number)
    else record {
      rule = po_amount_tolerance;
      severity = if ok then info else error;
      passed = ok;
      message = if ok then within_po order.po_number else off_po direction order.po_number off pct;
      detail = po invoice_total order.total pct;
    }

pub amount_check : Option PoSnapshot → Option Decimal → RuleResult
unfolding tolerance_check
amount_check none total = skipped po_amount_tolerance no_po_matched
amount_check (some order) none = warned po_amount_tolerance no_total_for_po
amount_check (some order) (some total) = tolerance_check order total

unfoldable pub rule_po_amount_tolerance : ValidationInput → RuleResult
unfolding amount_check
rule_po_amount_tolerance inp = amount_check inp.matched_po inp.invoice.total

vendor_check : Option PoSnapshot → Option ℕ → RuleResult
vendor_check none vendor = skipped po_vendor_mismatch no_po_matched
vendor_check (some order) none = warned po_vendor_mismatch (supplier_unknown order.po_number)
vendor_check (some order) (some vendor) =
    let ok = order.vendor_id == vendor in
    record {
      rule = po_vendor_mismatch;
      severity = if ok then info else error;
      passed = ok;
      message = if ok then po_of_vendor else po_of_other_vendor order.po_number;
      detail = no_detail;
    }

unfoldable pub rule_po_vendor_mismatch : ValidationInput → RuleResult
unfolding vendor_check
rule_po_vendor_mismatch inp = vendor_check inp.matched_po inp.matched_vendor_id

duplicate_failure : Text → List DuplicateCandidate → RuleResult
duplicate_failure number [] = skipped duplicate_invoice_number no_duplicate
duplicate_failure number (c ∷ cs) =
    let ids = map (λ d. DuplicateCandidate.invoice_id d) (c ∷ cs) in
    record {
      rule = duplicate_invoice_number;
      severity = error;
      passed = false;
      message = duplicate_of number ids;
      detail = candidates ids;
    }

duplicate_check : Option Text → List DuplicateCandidate → RuleResult
unfolding duplicate_failure
duplicate_check none found = skipped duplicate_invoice_number no_invoice_number
duplicate_check (some []) found = skipped duplicate_invoice_number no_invoice_number
duplicate_check (some (c ∷ number)) found = duplicate_failure (c ∷ number) found

unfoldable pub rule_duplicate_invoice_number : ValidationInput → RuleResult
unfolding duplicate_check
rule_duplicate_invoice_number inp =
    duplicate_check inp.invoice.invoice_number inp.duplicate_candidates

module _ (u : Unicode) where
  -- `currency.strip().upper()`
  unfoldable pub normal_currency : Text → Text
  normal_currency c = uppercase u (strip u c)

  currency_check : Option PoSnapshot → Option Text → RuleResult
  unfolding normal_currency
  currency_check none currency = skipped po_currency_match no_po_matched
  currency_check (some order) none = warned po_currency_match no_currency
  currency_check (some order) (some []) = warned po_currency_match no_currency
  currency_check (some order) (some (c ∷ cs)) =
      let ok = normal_currency (c ∷ cs) == normal_currency order.currency in
      record {
        rule = po_currency_match;
        severity = if ok then info else error;
        passed = ok;
        message = if ok then currency_matches else currency_differs (c ∷ cs) order.currency;
        detail = no_detail;
      }

  unfoldable pub rule_po_currency_match : ValidationInput → RuleResult
  unfolding currency_check
  rule_po_currency_match inp = currency_check inp.matched_po inp.invoice.currency

  -- `RULES`, run in order.
  unfoldable pub run_rules : ValidationInput → List RuleResult
  run_rules inp =
      rule_required_fields_present inp
      ∷ rule_arithmetic_consistency inp
      ∷ rule_line_items_sum_to_subtotal inp
      ∷ rule_po_amount_tolerance inp
      ∷ rule_po_currency_match inp
      ∷ rule_po_vendor_mismatch inp
      ∷ rule_duplicate_invoice_number inp
      ∷ []

abbrev is_error : Severity → Bool
is_error error = true
is_error _ = false

abbrev blocks : RuleResult → Bool
blocks r = is_error r.severity && not r.passed

unfoldable pub has_blocking_failure : List RuleResult → Bool
has_blocking_failure results = any blocks results
