-- ===== src/Tests/Stages.antt =====
-- An invoice on its way through the stages, and the theorems on the services at each step.
use ai_account_payable_invoi.Prelude.{
  ◌+◌, ◌≡◌, ◌≢◌, ◌↔◌, ◌⊎◌, inl, refl, true, Option, none, some, [], any,
}
use ai_account_payable_invoi.Text.{text, strip}
use ai_account_payable_invoi.Domain.State.{
  received, validated, auto_approved, approved, failed, can_transition,
}
use ai_account_payable_invoi.Domain.State.Trails.{is_approval}
use ai_account_payable_invoi.Models.{Invoice}
use ai_account_payable_invoi.Domain.Approval.{decide_approval, auto_approve_confidence_threshold}
use ai_account_payable_invoi.Services.Outcome.{Result, ok, raised, illegal_transition}
use ai_account_payable_invoi.Services.Lifecycle.{advance}
use ai_account_payable_invoi.Services.Lifecycle.History.{
  HasHistory, statuses, handed_off_was_approved,
}
use ai_account_payable_invoi.Services.Session.{Objects, get_object}
use ai_account_payable_invoi.Services.Documents.{extract_text, is_blank}
use ai_account_payable_invoi.Services.Extraction.{
  latest_successful_extraction, extraction_stage, extract_with_retry,
}
use ai_account_payable_invoi.Services.Extraction.Stage.{Ran, extraction_stage-Ran}
use ai_account_payable_invoi.Services.Extraction.Retry.{RetryEnds, extract_with_retry-RetryEnds}
use ai_account_payable_invoi.Services.Matching.{extracted_result, latest_match}
use ai_account_payable_invoi.Services.Approval.{
  approval_stage, vendor_identified, has_order, latest_validation, decision_for,
}
use ai_account_payable_invoi.Services.Approval.Stage.{approval_stage_without_data}
use ai_account_payable_invoi.Services.Approval.Policy.{PolicyHolds, approval_stage_auto_iff}
use ai_account_payable_invoi.Services.Export.{export_stage}
use ai_account_payable_invoi.Services.Export.Stage.{
  ExportRun, export_stage-ExportRun, export_stage_without_data,
}
use ai_account_payable_invoi.Tests.Data.{
  fresh, with_rows, bare, exporting_one, tables, objects, model, runtime, signer,
}

-- What a run leaves, and its row.
abbrev left_by {ℓ} : {A : Type ℓ} → Invoice → Result (A × Invoice) → Invoice
left_by v (ok (row, w)) = w
left_by v (raised e) = v

abbrev row_of {ℓ} : {A : Type ℓ} {B : Type 0} → Result (Option A × B) → Option A
row_of (ok (row, w)) = row
row_of (raised e) = none

abbrev handed_back {ℓ} : {A : Type ℓ} → Result (A × Invoice × Objects) → Objects
handed_back (ok (row, w, after)) = after
handed_back (raised e) = []

abbrev exported_row {ℓ} : {A : Type ℓ} → Result (Option A × Invoice × Objects) → Option A
exported_row (ok (row, w, after)) = row
exported_row (raised e) = none

abbrev left_in {ℓ} : {A : Type ℓ} → Result (A × Invoice × Objects) → Invoice
left_in (ok (row, w, after)) = w
left_in (raised e) = fresh

extraction_stage-Ran_example :
    let run = extraction_stage runtime objects (some model) fresh in
    (fresh.status ≢ received) × (row_of run ≡ none) × (left_by fresh run ≡ fresh)
    ⊎ (fresh.status ≡ received) × Ran fresh (left_by fresh run) (row_of run)
unfolding extraction_stage advance can_transition get_object extract_text is_blank strip
    extract_with_retry
extraction_stage-Ran_example = extraction_stage-Ran runtime objects (some model) fresh _ _ refl

extract_with_retry-RetryEnds_example :
    RetryEnds runtime model
      (text "Invoice")
      (1 + 1)
      (extract_with_retry runtime model (text "Invoice") 1)
extract_with_retry-RetryEnds_example = extract_with_retry-RetryEnds runtime model (text "Invoice") 1

approval_stage_auto_iff_example :
    let run = approval_stage (with_rows validated) in
    ((left_by fresh run).status ≡ auto_approved) ↔ PolicyHolds (with_rows validated)
unfolding approval_stage advance can_transition latest_validation latest_successful_extraction
    decision_for decide_approval vendor_identified latest_match has_order
    auto_approve_confidence_threshold
approval_stage_auto_iff_example = approval_stage_auto_iff (with_rows validated) _ _ refl refl

approval_stage_without_data_example :
    approval_stage (bare validated) ≡ raised (illegal_transition validated failed)
unfolding latest_validation
approval_stage_without_data_example = approval_stage_without_data (bare validated) refl (inl refl)

export_stage-ExportRun_example :
    let run = export_stage signer tables objects (with_rows approved) in
    ExportRun signer tables
      (with_rows approved)
      (left_in run)
      (exported_row run)
      objects
      (handed_back run)
unfolding export_stage advance can_transition extracted_result
export_stage-ExportRun_example =
    export_stage-ExportRun signer tables objects _ (with_rows approved) _ _ refl

export_stage_without_data_example :
    export_stage signer tables objects (bare approved) ≡ raised (illegal_transition approved failed)
unfolding extracted_result
export_stage_without_data_example =
    export_stage_without_data signer tables objects (bare approved) refl refl

exporting_one-HasHistory : HasHistory exporting_one
unfolding can_transition
exporting_one-HasHistory = (
  refl,
  refl,
  (refl, refl, (refl, refl, (refl, refl, (refl, refl, (refl, refl, (refl, refl, refl)))))),
)

handed_off_was_approved_example : any is_approval (statuses exporting_one.audit_log) ≡ true
handed_off_was_approved_example =
    handed_off_was_approved exporting_one exporting_one-HasHistory refl
