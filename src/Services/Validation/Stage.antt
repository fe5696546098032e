-- ===== src/Services/Validation/Stage.antt =====
-- What the validation stage does to an invoice, on every branch.
use ai_account_payable_invoi.Prelude.{
  ◌≡◌, ◌≢◌, refl, sym, ap, Bool-cases, Option, none, some, [], ◌∷◌, ◌++◌, inl, inr, Option-cases,
  ◌==◌, not,
}
use ai_account_payable_invoi.Text.{Unicode}
use ai_account_payable_invoi.Domain.State.{validating, validated, failed, status_eq}
use ai_account_payable_invoi.Domain.Extraction.{ExtractionResult, ExtractedInvoice}
use ai_account_payable_invoi.Models
use ai_account_payable_invoi.Models.{Invoice, InvoiceMatch, Tables, Reason}
use ai_account_payable_invoi.Services.Outcome.{ok}
use ai_account_payable_invoi.Services.Lifecycle.{system}
use ai_account_payable_invoi.Services.Lifecycle.History.{
  ok-injective, after_move, moved_with, Leaves, absurd_test,
}
use ai_account_payable_invoi.Domain.Validation.{run_rules, has_blocking_failure}
use ai_account_payable_invoi.Services.Matching.{extracted_result}
use ai_account_payable_invoi.Services.Matching.Stage.{give_up-Leaves}
use ai_account_payable_invoi.Services.Validation.{
  validation_input, record_validation, validation_stage,
}

-- The row that the rules give for the extracted data `e`.
abbrev pub ruled : Unicode → Tables → Invoice → ExtractedInvoice → Models.Validation
ruled u tables v e =
    let results = run_rules u (validation_input u tables v e) in
    record { results = results; passed = not (has_blocking_failure results) }

module _ (u : Unicode) (tables : Tables) where
  -- The ways in which the stage returns.
  pub data ValidationRun (v w : Invoice) (row : Option Models.Validation) : Type 0 where
    untouched : v.status ≢ validating → row ≡ none → w ≡ v → ValidationRun v w row
    ruled_on :
        (r : ExtractionResult)
        → v.status ≡ validating
        → extracted_result v ≡ some r
        → row ≡ some (ruled u tables v r.invoice)
        → Leaves v w validated v.extractions v.matches
            (v.validations ++ (ruled u tables v r.invoice ∷ []))
            v.exports
        → ValidationRun v w row
    nothing_extracted :
        v.status ≡ validating
        → extracted_result v ≡ none
        → row ≡ none
        → Leaves v w failed v.extractions v.matches v.validations v.exports
        → ValidationRun v w row

  record_validation-Leaves :
      (v w : Invoice) (e : ExtractedInvoice) (row : Option Models.Validation)
      → record_validation u tables v e ≡ ok (row, w)
      → (row ≡ some (ruled u tables v e))
        × Leaves v w validated v.extractions v.matches
            (v.validations ++ (ruled u tables v e ∷ []))
            v.exports
  unfolding record_validation
  record_validation-Leaves v w e row h =
      let (legal, row_is, w_is) = after_move _ w validated system _ h in
      (
        sym row_is,
        rw (← w_is) (record {
          logged = moved_with v _ validated system _ refl refl refl refl legal;
          ends = refl;
          extractions = refl;
          matches = refl;
          validations = refl;
          exports = refl;
        }),
      )

  -- A run of the validation that returns either met an invoice that is not VALIDATING, and
  -- changed nothing; or added the row with the rules' results, passed when none blocks, and left
  -- it VALIDATED; or found no extracted data and left it FAILED. Log and rows of the other
  -- stages are kept.
  pub validation_stage-ValidationRun :
      (v w : Invoice) (row : Option Models.Validation)
      → validation_stage u tables v ≡ ok (row, w)
      → ValidationRun v w row
  unfolding validation_stage
  validation_stage-ValidationRun v w row h = elim (Bool-cases (v.status == validating)) [
    | inl y ↦
        let at = (status_eq.beq_iff v.status validating).0 y in
        elim (Option-cases (extracted_result v)) [
          | inl q ↦
              let (_, row_is, left) =
                give_up-Leaves v w Reason.nothing_to_validate row (rw (y, q) at h) in
              nothing_extracted at q row_is left
          | inr (r, q) ↦
              let (row_is, left) = record_validation-Leaves v w r.invoice row (rw (y, q) at h) in
              ruled_on r at q row_is left
        ]
    | inr n ↦
        let pair = ok-injective (rw n at h) in
        untouched (λ q. absurd_test n ((status_eq.beq_iff v.status validating).1 q))
          (sym (ap (λ p. p.0) pair)) (sym (ap (λ p. p.1) pair))
  ]
