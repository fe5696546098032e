-- ===== src/Services/Approval/Stage.antt =====
-- What the approval stage and the reviewer's decision do to an invoice.
use ai_account_payable_invoi.Prelude.{
  ◌≡◌, ◌≢◌, refl, sym, ap, ◌∙◌, ◌⊎◌, false, Bool-cases, Option, none, some, inl, inr, Option-cases,
  ◌==◌,
}
use ai_account_payable_invoi.Domain.State.{
  validated, auto_approved, needs_review, failed, status_eq, can_transition,
}
use ai_account_payable_invoi.Models
use ai_account_payable_invoi.Models.{Invoice, InvoiceMatch, Tables, Reason}
use ai_account_payable_invoi.Services.Outcome.{Result, ok, raised, Error, illegal_transition}
use ai_account_payable_invoi.Services.Lifecycle.{system}
use ai_account_payable_invoi.Services.Lifecycle.History.{
  moved-Extends, ok-injective, after_move, Leaves, absurd_test,
}
use ai_account_payable_invoi.Domain.Approval.{ApprovalDecision}
use ai_account_payable_invoi.Domain.Approval.Laws.{decide_approval-cases}
use ai_account_payable_invoi.Services.Extraction.{latest_successful_extraction}
use ai_account_payable_invoi.Services.Matching.{give_up, latest_match}
use ai_account_payable_invoi.Services.Matching.Stage.{give_up-raises}
use ai_account_payable_invoi.Services.Approval.{
  latest_validation, decision_for, record_decision, approval_stage, vendor_identified, has_order,
  confidences_in,
}

none_not_some {ℓ} : {A : Type ℓ} {o : Option A} {a : A} → o ≡ none → o ≡ some a → ⊥
none_not_some p q = cc

-- On a validated invoice without a validation or without a successful extraction, the stage
-- raises for the illegal move to FAILED, so that the invoice stays as it is.
pub approval_stage_without_data :
    (v : Invoice)
    → v.status ≡ validated
    → (latest_validation v ≡ none) ⊎ (latest_successful_extraction v ≡ none)
    → approval_stage v ≡ raised (illegal_transition validated failed)
unfolding approval_stage can_transition
approval_stage_without_data v at missing =
    let why = Reason.nothing_to_approve in
    let closed : can_transition v.status failed ≡ false = ap (λ s. can_transition s failed) at in
    let stops : give_up {A = ApprovalDecision} v why
        ≡ raised (illegal_transition validated failed) =
      give_up-raises v why closed ∙ ap (λ s. raised (illegal_transition s failed)) at in
    let test = (status_eq.beq_iff v.status validated).1 at in
    elim (Option-cases (latest_validation v)) [
      | inl q ↦ rw (test, q) stops
      | inr (x, q) ↦ elim (Option-cases (latest_successful_extraction v)) [
        | inl r ↦ rw (test, q, r) stops
        | inr (y, r) ↦
            absurd (elim missing [ inl a ↦ none_not_some a q | inr b ↦ none_not_some b r ])
      ]
    ]

raised_not_ok {ℓ} : {A : Type ℓ} {r : Result A} {x : Error} {a : A} → r ≡ raised x → r ≡ ok a → ⊥
raised_not_ok p q = cc

-- The ways in which the stage returns.
pub data ApprovalRun (v w : Invoice) (row : Option ApprovalDecision) : Type 0 where
  untouched : v.status ≢ validated → row ≡ none → w ≡ v → ApprovalRun v w row
  decided :
      (x : Models.Validation) (e : Models.Extraction)
      → v.status ≡ validated
      → latest_validation v ≡ some x
      → latest_successful_extraction v ≡ some e
      → row ≡ some (decision_for v x e)
      → Leaves v w (decision_for v x e).outcome v.extractions v.matches v.validations v.exports
      → ApprovalRun v w row

pub decision_for-cases :
    (v : Invoice) (x : Models.Validation) (e : Models.Extraction)
    → let outcome = (decision_for v x e).outcome in
      (outcome ≡ auto_approved) ⊎ (outcome ≡ needs_review)
unfolding decision_for
decision_for-cases v x e =
    decide_approval-cases x.passed (vendor_identified (latest_match v)) (has_order (latest_match v))
      (confidences_in e.field_confidence)

record_decision-Leaves :
    (v w : Invoice) (x : Models.Validation) (e : Models.Extraction) (row : Option ApprovalDecision)
    → record_decision v x e ≡ ok (row, w)
    → (row ≡ some (decision_for v x e))
      × Leaves v w (decision_for v x e).outcome v.extractions v.matches v.validations v.exports
unfolding record_decision
record_decision-Leaves v w x e row h =
    let outcome = (decision_for v x e).outcome in
    let (legal, row_is, w_is) = after_move v w outcome system _ h in
    (
      sym row_is,
      rw (← w_is) (record {
        logged = moved-Extends v outcome system _ legal;
        ends = refl;
        extractions = refl;
        matches = refl;
        validations = refl;
        exports = refl;
      }),
    )

-- A run of the approval that returns either met an invoice that is not VALIDATED, and changed
-- nothing; or took the policy's decision on the latest validation and the latest successful
-- extraction, both of which exist, and left the invoice in the decision's outcome, with its rows
-- kept.
pub approval_stage-ApprovalRun :
    (v w : Invoice) (row : Option ApprovalDecision)
    → approval_stage v ≡ ok (row, w)
    → ApprovalRun v w row
unfolding approval_stage
approval_stage-ApprovalRun v w row h = elim (Bool-cases (v.status == validated)) [
  | inl y ↦
      let at = (status_eq.beq_iff v.status validated).0 y in
      elim (Option-cases (latest_validation v)) [
        | inl q ↦ absurd (raised_not_ok (approval_stage_without_data v at (inl q)) h)
        | inr (x, q) ↦ elim (Option-cases (latest_successful_extraction v)) [
          | inl r ↦ absurd (raised_not_ok (approval_stage_without_data v at (inr r)) h)
          | inr (e, r) ↦
              let (row_is, left) = record_decision-Leaves v w x e row (rw (y, q, r) at h) in
              decided x e at q r row_is left
        ]
      ]
  | inr n ↦
      let pair = ok-injective (rw n at h) in
      untouched (λ q. absurd_test n ((status_eq.beq_iff v.status validated).1 q))
        (sym (ap (λ p. p.0) pair)) (sym (ap (λ p. p.1) pair))
]
