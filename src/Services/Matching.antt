-- ===== src/Services/Matching.antt =====
-- The matching stage, src/invoice_ops/services/matching.py.
pub mod Stage
use ai_account_payable_invoi.Prelude.{
  ℕ, Bool, Option, none, some, List, [], ◌∷◌, ◌++◌, map, keep, get_last?, ◌==◌, if◌then◌else◌,
}
use ai_account_payable_invoi.Text.{Text, Unicode}
use ai_account_payable_invoi.Float.{Float}
use ai_account_payable_invoi.Domain.State.{
  InvoiceStatus, extracted, matching, validating, failed, status_eq,
}
use ai_account_payable_invoi.Domain.Extraction.{ExtractedInvoice, ExtractionResult}
use ai_account_payable_invoi.Domain.Matching.{
  VendorIdentity, PoIdentity, VendorMatchResult, PoMatchResult, match_vendor, match_po,
}
use ai_account_payable_invoi.Models
use ai_account_payable_invoi.Models.{Invoice, InvoiceMatch, Vendor, PurchaseOrder, Tables, Reason}
use ai_account_payable_invoi.Services.Outcome.{Result, ok, ◌>>=◌}
use ai_account_payable_invoi.Services.Lifecycle.{advance, system}
use ai_account_payable_invoi.Services.Session.{on_invoice}
use ai_account_payable_invoi.Services.Extraction.{latest_successful_extraction}

-- `latest_match`
unfoldable pub latest_match : Invoice → Option InvoiceMatch
latest_match invoice = get_last? invoice.matches

-- The result that the latest successful extraction holds: `none` if there is no such extraction, or
-- if its `result_json` is null.
abbrev result_in : Option Models.Extraction → Option ExtractionResult
result_in none = none
result_in (some e) = e.result_json

unfoldable pub extracted_result : Invoice → Option ExtractionResult
unfolding latest_successful_extraction
extracted_result invoice = result_in (latest_successful_extraction invoice)

-- The stages' common failure: the reason is noted, and the invoice fails.
unfoldable pub give_up {ℓ} : {A : Type ℓ} → Invoice → Reason → Result (Option A × Invoice)
give_up invoice why = do
  invoice' ← advance (record invoice { failure_reason = some why }) failed system (some why)
  ok (none, invoice')

abbrev identity_of : Vendor → VendorIdentity
identity_of v = record {
  vendor_id = v.id;
  legal_name = v.legal_name;
  tax_id = v.tax_id;
  aliases = v.aliases;
}

abbrev order_identity : PurchaseOrder → PoIdentity
order_identity po = record { po_id = po.id; po_number = po.po_number }

module _ (u : Unicode) (ratio : Text → Text → Float) (tables : Tables) where
  unfoldable pub vendor_result : ExtractedInvoice → VendorMatchResult
  vendor_result extracted_invoice =
      match_vendor u ratio extracted_invoice
        (map identity_of (keep (λ v. Vendor.active v) tables.vendors))

  unfoldable pub order_result : ExtractedInvoice → PoMatchResult
  order_result extracted_invoice =
      match_po u extracted_invoice (map order_identity tables.purchase_orders)

  unfoldable pub match_row : ExtractedInvoice → InvoiceMatch
  unfolding vendor_result order_result
  match_row e =
      let v = vendor_result e in
      let po = order_result e in
      record {
        vendor_id = v.vendor_id;
        vendor_match_method = v.method;
        vendor_confidence = v.confidence;
        vendor_candidates = v.candidates;
        po_id = po.po_id;
        po_match_method = po.method;
      }

  unfoldable pub record_match : Invoice → ExtractedInvoice → Result (Option InvoiceMatch × Invoice)
  record_match invoice e = do
    started ← advance invoice matching system (some Reason.starting_matching)
    let row = match_row e
    let method = row.vendor_match_method
    invoice' ←
        advance (record started { matches = started.matches ++ (row ∷ []) }) validating system
          (some (Reason.matched_by method row.po_match_method))
    ok (some row, invoice')

  unfoldable pub matching_stage : Invoice → Result (Option InvoiceMatch × Invoice)
  unfolding record_match
  matching_stage invoice =
      if invoice.status == extracted
      then elim (extracted_result invoice) [
        | none ↦ give_up invoice Reason.nothing_to_match
        | some r ↦ record_match invoice r.invoice
      ]
      else ok (none, invoice)

unfoldable pub run_matching :
    Unicode → (Text → Text → Float) → ℕ → Tables → Result (Option InvoiceMatch × Tables)
unfolding matching_stage
run_matching u ratio id tables = on_invoice (matching_stage u ratio tables) id tables
