-- ===== src/Workers/Handles.antt =====
-- A stage that ran for a task sends what the new status of the invoice calls for.
use ai_account_payable_invoi.Prelude.{
  ℕ, ◌≡◌, ◌≢◌, refl, sym, ap, ◌∙◌, ◌⊎◌, inl, inr, false, Option, some, List, [], ◌∷◌, ◌==◌, nat_eq,
  if◌then◌else◌,
}
use ai_account_payable_invoi.Text.{Text, Unicode}
use ai_account_payable_invoi.Float.{Float}
use ai_account_payable_invoi.Domain.State.{
  InvoiceStatus, received, extracted, validating, validated, needs_review, auto_approved, exported,
  failed, status_eq,
}
use ai_account_payable_invoi.Domain.Approval.{ApprovalDecision}
use ai_account_payable_invoi.Models
use ai_account_payable_invoi.Models.{
  Invoice, InvoiceMatch, Tables, Reason, find_invoice, store_invoice,
}
use ai_account_payable_invoi.Services.Outcome.{ok}
use ai_account_payable_invoi.Services.Session.{Objects}
use ai_account_payable_invoi.Services.Extraction.{Llm, Runtime, extraction_stage}
use ai_account_payable_invoi.Services.Extraction.Stage.{
  Ran, succeeded, gave_up, extraction_stage-Ran,
}
use ai_account_payable_invoi.Services.Matching.{matching_stage}
use ai_account_payable_invoi.Services.Matching.Stage.{MatchingRun, matching_stage-MatchingRun}
use ai_account_payable_invoi.Services.Validation.{validation_stage}
use ai_account_payable_invoi.Services.Validation.Stage.{
  ValidationRun, validation_stage-ValidationRun,
}
use ai_account_payable_invoi.Services.Approval.{approval_stage}
use ai_account_payable_invoi.Services.Approval.Stage.{
  ApprovalRun, decision_for-cases, approval_stage-ApprovalRun,
}
use ai_account_payable_invoi.Services.Export.{Signer, export_stage, is_exportable}
use ai_account_payable_invoi.Services.Export.Stage.{ExportRun, export_stage-ExportRun}
use ai_account_payable_invoi.Workers.{
  Task, to_extract, to_match, to_validate, to_approve, to_export, chain,
}
use ai_account_payable_invoi.Workers.Queue.{
  next_task, Queued, Waits, same_task, next_task_not_extract,
}

-- What a stage that ran for a task leaves of an invoice: it was not what the task is for, or what
-- its new status calls for is sent.
abbrev pub Handles : Task → Invoice → Invoice → List Task → Type 0
Handles t v w sent = ((w ≡ v) × (next_task v.status v.id ≢ some t)) ⊎ Waits sent w

pub waits_at :
    (v : Invoice) (s : InvoiceStatus) (id : ℕ) (sent : List Task)
    → v.status ≡ s
    → v.id ≡ id
    → ((t : Task) → next_task s id ≡ some t → Queued t sent)
    → Waits sent v
waits_at v s id sent at is h t calls =
    h t (ap (λ i. next_task s i) (sym is) ∙ ap (λ x. next_task x v.id) (sym at) ∙ calls)

-- The sent task bears the id that the invoice was found by, which the stage keeps.
module _ (id : ℕ) (v w : Invoice) (found : v.id ≡ id) where
  not_at :
      (t : Task) (s : InvoiceStatus)
      → ((x : InvoiceStatus) → next_task x id ≡ some t → x ≡ s)
      → v.status ≢ s
      → next_task v.status v.id ≢ some t
  not_at t s only n e = n (only v.status (ap (λ i. next_task v.status i) (sym found) ∙ e))

  pub extraction_stage-Handles :
      {Json : Type 0} (rt : Runtime Json) (objects : Objects) (llm : Option Llm)
      (row : Option Models.Extraction)
      → extraction_stage rt objects llm v ≡ ok (row, w)
      → Handles
          (to_extract id)
          v
          w
          (chain (λ (x : Models.Extraction). if x.ok then to_match id ∷ [] else []) (ok row))
  extraction_stage-Handles rt objects llm row e =
      elim (extraction_stage-Ran rt objects llm v w row e) [
        | inl (_, _, untouched) ↦ inl (untouched, next_task_not_extract v.status v.id id)
        | inr (_, ran) ↦ inr (by_run ran)
      ]
    where
      by_run :
          Ran v w row
          → Waits
              (chain (λ (x : Models.Extraction). if x.ok then to_match id ∷ [] else []) (ok row))
              w
      by_run (succeeded x is works a _) =
          rw (is, works.is_ok)
            (waits_at w extracted id (to_match id ∷ []) a.ends (a.logged.same_id ∙ found)
              (λ t q. inl (same_task q)))
      by_run (gave_up x is fails a _) =
          rw (is, fails) (waits_at w failed id [] a.ends (a.logged.same_id ∙ found) (λ t q. cc))

  pub matching_stage-Handles :
      (u : Unicode) (ratio : Text → Text → Float) (tables : Tables) (row : Option InvoiceMatch)
      → matching_stage u ratio tables v ≡ ok (row, w)
      → Handles (to_match id) v w (chain (λ (m : InvoiceMatch). to_validate id ∷ []) (ok row))
  matching_stage-Handles u ratio tables row e =
      by_run (matching_stage-MatchingRun u ratio tables v w row e)
    where
      only : (s : InvoiceStatus) → next_task s id ≡ some (to_match id) → s ≡ extracted
      only received q = cc
      only extracted q = refl
      only s q = cc

      by_run :
          MatchingRun u ratio tables v w row
          → Handles (to_match id) v w (chain (λ (m : InvoiceMatch). to_validate id ∷ []) (ok row))
      by_run (MatchingRun.untouched n _ same) = inl (same, not_at _ extracted only n)
      by_run (MatchingRun.matched_to _ _ _ is left) = inr (
          rw is (
            waits_at w validating id (to_validate id ∷ []) left.ends (left.logged.same_id ∙ found)
              (λ t q. inl (same_task q))))
      by_run (MatchingRun.nothing_extracted _ _ is left) =
          inr (rw is (waits_at w failed id [] left.ends (left.logged.same_id ∙ found) (λ t q. cc)))

  pub validation_stage-Handles :
      (u : Unicode) (tables : Tables) (row : Option Models.Validation)
      → validation_stage u tables v ≡ ok (row, w)
      → Handles
          (to_validate id)
          v
          w
          (chain (λ (x : Models.Validation). to_approve id ∷ []) (ok row))
  validation_stage-Handles u tables row e =
      by_run (validation_stage-ValidationRun u tables v w row e)
    where
      only : (s : InvoiceStatus) → next_task s id ≡ some (to_validate id) → s ≡ validating
      only received q = cc
      only validating q = refl
      only s q = cc

      by_run :
          ValidationRun u tables v w row
          → Handles
              (to_validate id)
              v
              w
              (chain (λ (x : Models.Validation). to_approve id ∷ []) (ok row))
      by_run (ValidationRun.untouched n _ same) = inl (same, not_at _ validating only n)
      by_run (ValidationRun.ruled_on _ _ _ is left) = inr (
          rw is (
            waits_at w validated id (to_approve id ∷ []) left.ends (left.logged.same_id ∙ found)
              (λ t q. inl (same_task q))))
      by_run (ValidationRun.nothing_extracted _ _ is left) =
          inr (rw is (waits_at w failed id [] left.ends (left.logged.same_id ∙ found) (λ t q. cc)))

  pub approval_stage-Handles :
      (row : Option ApprovalDecision)
      → approval_stage v ≡ ok (row, w)
      → Handles (to_approve id) v w (
          chain
            (λ (d : ApprovalDecision). if d.outcome == auto_approved then to_export id ∷ [] else [])
            (ok row))
  approval_stage-Handles row e = by_run (approval_stage-ApprovalRun v w row e)
    where
      only : (s : InvoiceStatus) → next_task s id ≡ some (to_approve id) → s ≡ validated
      only received q = cc
      only validated q = refl
      only s q = cc

      by_run :
          ApprovalRun v w row
          → Handles (to_approve id) v w (
              chain
                (λ (d : ApprovalDecision).
                  if d.outcome == auto_approved then to_export id ∷ [] else [])
                (ok row))
      by_run (ApprovalRun.untouched n _ same) = inl (same, not_at _ validated only n)
      by_run (ApprovalRun.decided x y _ _ _ is left) = elim (decision_for-cases v x y) [
        | inl auto ↦ inr (
            rw (is, auto)
              (waits_at w auto_approved id (to_export id ∷ []) (left.ends ∙ auto)
                (left.logged.same_id ∙ found) (λ t q. inl (same_task q))))
        | inr review ↦ inr (
            rw (is, review)
              (waits_at w needs_review id [] (left.ends ∙ review) (left.logged.same_id ∙ found)
                (λ t q. cc)))
      ]

  pub export_stage-Handles :
      (signer : Signer) (tables : Tables) (objects after : Objects) (row : Option Models.Export)
      → export_stage signer tables objects v ≡ ok (row, w, after)
      → Handles (to_export id) v w []
  export_stage-Handles signer tables objects after row e =
      by_run (export_stage-ExportRun signer tables objects after v w row e)
    where
      only : (s : InvoiceStatus) → is_exportable s ≡ false → next_task s id ≢ some (to_export id)
      only received n q = cc
      only s n q = cc

      by_run : ExportRun signer tables v w row objects after → Handles (to_export id) v w []
      by_run (ExportRun.untouched n _ same _) =
          inl (same, λ q. only v.status n (ap (λ i. next_task v.status i) (sym found) ∙ q))
      by_run (ExportRun.sent _ _ _ _ _ _ left) =
          inr (waits_at w exported id [] left.ends (left.logged.same_id ∙ found) (λ t q. cc))
