-- ===== src/Services/Approval.antt =====
-- The approval stage and the reviewer's decision, src/invoice_ops/services/approval.py.
pub mod Stage
pub mod Human
pub mod Policy
use mathlib.Core.Bool.{◌&&◌, ◌||◌}
use ai_account_payable_invoi.Prelude.{
  ℕ, Bool, true, false, Option, none, some, List, [], ◌∷◌, get_last?, ◌==◌, if◌then◌else◌,
}
use ai_account_payable_invoi.Text.{Text}
use ai_account_payable_invoi.Domain.State.{InvoiceStatus, validated, approved, rejected, status_eq}
use ai_account_payable_invoi.Domain.Extraction.{Confidences}
use ai_account_payable_invoi.Domain.Matching.{VendorMatchMethod, exact_name, fuzzy_name}
use ai_account_payable_invoi.Domain.Approval.{ApprovalDecision, ReviewReason, decide_approval}
use ai_account_payable_invoi.Models
use ai_account_payable_invoi.Models.{Invoice, InvoiceMatch, Tables, Reason}
use ai_account_payable_invoi.Services.Outcome.{Result, ok, ◌>>=◌}
use ai_account_payable_invoi.Services.Lifecycle.{advance, system}
use ai_account_payable_invoi.Services.Session.{on_invoice}
use ai_account_payable_invoi.Services.Extraction.{latest_successful_extraction}
use ai_account_payable_invoi.Services.Matching.{latest_match, give_up}

-- `latest_validation`
unfoldable pub latest_validation : Invoice → Option Models.Validation
latest_validation invoice = get_last? invoice.validations

-- `_IDENTIFIED_METHODS`
abbrev pub is_identified : VendorMatchMethod → Bool
is_identified VendorMatchMethod.tax_id = true
is_identified exact_name = true
is_identified fuzzy_name = true
is_identified _ = false

abbrev is_given : Option ℕ → Bool
is_given none = false
is_given (some _) = true

unfoldable pub vendor_identified : Option InvoiceMatch → Bool
vendor_identified none = false
vendor_identified (some m) = is_given m.vendor_id && is_identified m.vendor_match_method

unfoldable pub has_order : Option InvoiceMatch → Bool
has_order none = false
has_order (some m) = is_given m.po_id

-- `field_confidence or {}`
abbrev pub confidences_in : Option Confidences → Confidences
confidences_in none = []
confidences_in (some d) = d

unfoldable pub decision_for : Invoice → Models.Validation → Models.Extraction → ApprovalDecision
decision_for invoice validation extraction =
    let m = latest_match invoice in
    decide_approval validation.passed (vendor_identified m) (has_order m)
      (confidences_in extraction.field_confidence)

abbrev reason_text : List ReviewReason → Reason
reason_text [] = Reason.all_checks_passed
reason_text (r ∷ rs) = Reason.review_for (r ∷ rs)

unfoldable pub record_decision :
    Invoice → Models.Validation → Models.Extraction → Result (Option ApprovalDecision × Invoice)
unfolding decision_for
record_decision invoice validation extraction = do
  let decision = decision_for invoice validation extraction
  invoice' ← advance invoice decision.outcome system (some (reason_text decision.reasons))
  ok (some decision, invoice')

decide_with :
    Invoice
    → Option Models.Validation
    → Option Models.Extraction
    → Result (Option ApprovalDecision × Invoice)
unfolding record_decision
decide_with invoice none extraction = give_up invoice Reason.nothing_to_approve
decide_with invoice (some v) none = give_up invoice Reason.nothing_to_approve
decide_with invoice (some v) (some e) = record_decision invoice v e

unfoldable pub approval_stage : Invoice → Result (Option ApprovalDecision × Invoice)
unfolding decide_with
approval_stage invoice =
    if invoice.status == validated
    then decide_with invoice (latest_validation invoice) (latest_successful_extraction invoice)
    else ok (none, invoice)

unfoldable pub run_approval : ℕ → Tables → Result (Option ApprovalDecision × Tables)
unfolding approval_stage
run_approval = on_invoice approval_stage

unfoldable pub human_stage : Bool → Text → Option Reason → Invoice → Result (Unit {0} × Invoice)
human_stage approve actor reason invoice = do
  invoice' ← advance invoice (if approve then approved else rejected) actor reason
  ok (tt, invoice')

-- `record_human_decision`
unfoldable pub record_human_decision :
    Bool → Text → Option Reason → ℕ → Tables → Result (Unit {0} × Tables)
unfolding human_stage
record_human_decision approve actor reason = on_invoice (human_stage approve actor reason)
