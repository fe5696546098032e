-- ===== src/Services/Validation.antt =====
-- The validation stage, src/invoice_ops/services/validation.py.
pub mod Stage
pub mod Duplicates
pub mod Overflow
use mathlib.Core.Bool.{◌&&◌, ◌||◌, not}
use ai_account_payable_invoi.Prelude.{
  ℕ, Bool, true, false, Option, none, some, List, [], ◌∷◌, ◌++◌, map, keep, any, length, ◌==◌,
  nat_eq, list_eq, if◌then◌else◌,
}
use ai_account_payable_invoi.Text.{Text, Unicode, strip, lowercase, is_falsy, is_empty}
use ai_account_payable_invoi.Domain.State.{
  InvoiceStatus, validating, validated, failed, rejected, status_eq,
}
use ai_account_payable_invoi.Domain.Extraction.{ExtractedInvoice, ExtractionResult}
use ai_account_payable_invoi.Domain.Validation.{
  ValidationInput, PoSnapshot, DuplicateCandidate, run_rules, has_blocking_failure,
}
use ai_account_payable_invoi.Models
use ai_account_payable_invoi.Models.{
  Invoice, InvoiceMatch, PurchaseOrder, Tables, Reason, find_order,
}
use ai_account_payable_invoi.Services.Outcome.{Result, ok, raised, decimal_overflow, ◌>>=◌}
use ai_account_payable_invoi.Services.Lifecycle.{advance, system}
use ai_account_payable_invoi.Services.Session.{on_invoice}
use ai_account_payable_invoi.Services.Matching.{latest_match, extracted_result, give_up}

abbrev equals_some : Option ℕ → ℕ → Bool
equals_some none v = false
equals_some (some w) v = w == v

-- The invoice has a match row for the vendor, and is another one.
unfoldable pub shares_vendor : ℕ → ℕ → Invoice → Bool
shares_vendor own vendor other =
    any (λ m. equals_some (InvoiceMatch.vendor_id m) vendor) other.matches && not (other.id == own)

-- `_EXCLUDED_FROM_DUPLICATE_CHECK`
abbrev excluded_from_duplicate_check : InvoiceStatus → Bool
excluded_from_duplicate_check s = s == failed || s == rejected

abbrev extracted_number : Option ExtractionResult → Option Text
extracted_number none = none
extracted_number (some r) = r.invoice.invoice_number

module _ (u : Unicode) where
  -- `number.strip().lower()`
  unfoldable pub normal_number : Text → Text
  normal_number number = lowercase u (strip u number)

  abbrev same_number : Text → Option Text → Bool
  same_number normalized none = false
  same_number normalized (some n) = not (is_empty n) && normal_number n == normalized

  -- One round of the loop.
  unfoldable pub is_candidate : Text → Invoice → Bool
  is_candidate normalized other =
      not (excluded_from_duplicate_check other.status)
      && same_number normalized (extracted_number (extracted_result other))

  abbrev number_of : Option Text → Text
  number_of none = []
  number_of (some n) = n

  candidate_of : Invoice → DuplicateCandidate
  candidate_of other = record {
    invoice_id = other.id;
    invoice_number = number_of (extracted_number (extracted_result other));
    status = other.status;
  }

  -- `_find_duplicate_candidates`
  unfoldable pub find_duplicate_candidates :
      List Invoice → Invoice → ℕ → Text → List DuplicateCandidate
  unfolding candidate_of
  find_duplicate_candidates invoices invoice vendor number =
      let normalized = normal_number number in
      map candidate_of
        (keep (is_candidate normalized) (keep (shares_vendor invoice.id vendor) invoices))

  -- The search is made for an identified vendor and a number that is not empty.
  duplicates_for : List Invoice → Invoice → Option ℕ → Option Text → List DuplicateCandidate
  duplicates_for invoices invoice none number = []
  duplicates_for invoices invoice (some vendor) none = []
  duplicates_for invoices invoice (some vendor) (some []) = []
  duplicates_for invoices invoice (some vendor) (some (c ∷ cs)) =
      find_duplicate_candidates invoices invoice vendor (c ∷ cs)

  abbrev match_vendor_id : Option InvoiceMatch → Option ℕ
  match_vendor_id none = none
  match_vendor_id (some m) = m.vendor_id

  abbrev match_po_id : Option InvoiceMatch → Option ℕ
  match_po_id none = none
  match_po_id (some m) = m.po_id

  abbrev snapshot : PurchaseOrder → PoSnapshot
  snapshot po = record {
    po_number = po.po_number;
    currency = po.currency;
    total = po.total;
    vendor_id = po.vendor_id;
  }

  -- The snapshot of the order that the latest match names, if the row is still there.
  matched_order : Tables → Option ℕ → Option PoSnapshot
  matched_order tables none = none
  matched_order tables (some i) = elim (find_order i tables.purchase_orders) [
    | none ↦ none
    | some po ↦ some (snapshot po)
  ]

  unfoldable pub validation_input : Tables → Invoice → ExtractedInvoice → ValidationInput
  unfolding duplicates_for matched_order
  validation_input tables invoice e =
      let m = latest_match invoice in
      record {
        invoice = e;
        matched_po = matched_order tables (match_po_id m);
        matched_vendor_id = match_vendor_id m;
        duplicate_candidates =
            duplicates_for tables.invoices invoice (match_vendor_id m) e.invoice_number;
      }

  unfoldable pub record_validation :
      Tables → Invoice → ExtractedInvoice → Result (Option Models.Validation × Invoice)
  record_validation tables invoice e = do
    let results = run_rules u (validation_input tables invoice e)
    let ok_so_far = not (has_blocking_failure results)
    let row : Models.Validation = record { results = results; passed = ok_so_far }
    invoice' ←
        advance (record invoice { validations = invoice.validations ++ (row ∷ []) }) validated
          system (some (Reason.rules_evaluated (length results) ok_so_far))
    ok (some row, invoice')

  unfoldable pub validation_stage : Tables → Invoice → Result (Option Models.Validation × Invoice)
  unfolding record_validation
  validation_stage tables invoice =
      if invoice.status == validating
      then elim (extracted_result invoice) [
        | none ↦ give_up invoice Reason.nothing_to_validate
        | some r ↦ record_validation tables invoice r.invoice
      ]
      else ok (none, invoice)

  module _ (overflows : ValidationInput → Bool) where
    -- Whether the rules are run on numbers whose sum or quotient the decimal context traps.
    unfoldable pub overflows_at : Tables → Invoice → Bool
    overflows_at tables invoice = elim (extracted_result invoice) [
      | none ↦ false
      | some r ↦
          invoice.status == validating && overflows (validation_input tables invoice r.invoice)
    ]

    -- The stage as it runs: a trapped overflow leaves it before the row is added.
    unfoldable pub checked_stage : Tables → Invoice → Result (Option Models.Validation × Invoice)
    unfolding overflows_at validation_stage
    checked_stage tables invoice =
        if overflows_at tables invoice
        then raised decimal_overflow
        else validation_stage tables invoice

    unfoldable pub run_validation : ℕ → Tables → Result (Option Models.Validation × Tables)
    unfolding checked_stage
    run_validation id tables = on_invoice (checked_stage tables) id tables
