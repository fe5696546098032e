-- ===== src/Workers/Stages.antt =====
-- Every stage and every decision keeps an invoice sound.
use mathlib.Core.Path.{subst}
use ai_account_payable_invoi.Prelude.{
  ◌≡◌, refl, sym, ap, ◌∙◌, ◌⊎◌, inl, inr, Bool, true, false, Option, List, [], ◌∷◌, ◌++◌, any, ◌==◌,
  arith,
}
use ai_account_payable_invoi.Text.{Text, Unicode}
use ai_account_payable_invoi.Float.{Float}
use ai_account_payable_invoi.Domain.State.{
  InvoiceStatus, received, needs_review, auto_approved, approved, rejected, exported, status_eq,
  can_transition,
}
use ai_account_payable_invoi.Domain.Approval.{ApprovalDecision}
use ai_account_payable_invoi.Models
use ai_account_payable_invoi.Models.{Invoice, InvoiceMatch, AuditLog, Tables, Reason}
use ai_account_payable_invoi.Services.Outcome.{ok}
use ai_account_payable_invoi.Services.Session.{Objects}
use ai_account_payable_invoi.Services.Lifecycle.History.{Leaves, moved, moved-Extends}
use ai_account_payable_invoi.Services.Extraction.{Llm, Runtime, extraction_stage}
use ai_account_payable_invoi.Services.Extraction.Stage.{
  Ran, succeeded, gave_up, extraction_stage-Ran,
}
use ai_account_payable_invoi.Services.Matching.{matching_stage}
use ai_account_payable_invoi.Services.Matching.Stage.{MatchingRun, matching_stage-MatchingRun}
use ai_account_payable_invoi.Services.Validation.{validation_stage}
use ai_account_payable_invoi.Services.Validation.Stage.{
  ValidationRun, validation_stage-ValidationRun,
}
use ai_account_payable_invoi.Services.Approval.{approval_stage, human_stage}
use ai_account_payable_invoi.Services.Approval.Stage.{
  ApprovalRun, decision_for-cases, approval_stage-ApprovalRun,
}
use ai_account_payable_invoi.Services.Approval.Policy.{approval_stage_auto_iff}
use ai_account_payable_invoi.Services.Approval.Human.{verdict, human_stage_iff}
use ai_account_payable_invoi.Services.Export.{Signer, is_exportable, export_stage}
use ai_account_payable_invoi.Services.Export.Stage.{ExportRun, export_stage-ExportRun}
use ai_account_payable_invoi.Workers.Staged.{
  IsSound, HasOne, IsRuled, HasGrounds, IsSound-Rows, sound_at, found_result, PolicyHolds-keeps,
  WasReviewed-keeps,
}

-- A row is added to none.
first_row {ℓ} : {A : Type ℓ} (x : A) {xs ys : List A} → ys ≡ xs ++ (x ∷ []) → xs ≡ [] → HasOne ys
first_row x added nothing = (x, added ∙ ap (λ l. l ++ (x ∷ [])) nothing)

same : {v w : Invoice} → IsSound v → w ≡ v → IsSound w
same h e = subst IsSound (sym e) h

-- The extraction.
module _ {Json : Type 0} (rt : Runtime Json) (objects : Objects) (llm : Option Llm) where
  pub extraction_stage-IsSound :
      (v w : Invoice) (row : Option Models.Extraction)
      → extraction_stage rt objects llm v ≡ ok (row, w)
      → IsSound v
      → IsSound w
  extraction_stage-IsSound v w row e h = elim (extraction_stage-Ran rt objects llm v w row e) [
    | inl (_, _, untouched) ↦ same h untouched
    | inr (at, ran) ↦ by_run at ran
  ]
    where
      by_run : v.status ≡ received → Ran v w row → IsSound w
      by_run at (succeeded x _ works a _) =
          let (es, ms, vs, xs) = IsSound-Rows h at in
          sound_at h a.logged a.ends (
            (x, a.added ∙ ap (λ l. l ++ (x ∷ [])) es, works),
            a.same_matches ∙ ms,
            a.same_validations ∙ vs,
            a.same_exports ∙ xs,
          )
      by_run at (gave_up x _ fails a _) =
          let (es, ms, vs, xs) = IsSound-Rows h at in
          sound_at h a.logged a.ends (
            (x, a.added ∙ ap (λ l. l ++ (x ∷ [])) es, fails),
            a.same_matches ∙ ms,
            a.same_validations ∙ vs,
            a.same_exports ∙ xs,
          )

module _ (u : Unicode) (ratio : Text → Text → Float) (tables : Tables) where
  pub matching_stage-IsSound :
      (v w : Invoice) (row : Option InvoiceMatch)
      → matching_stage u ratio tables v ≡ ok (row, w)
      → IsSound v
      → IsSound w
  matching_stage-IsSound v w row e h = by_run (matching_stage-MatchingRun u ratio tables v w row e)
    where
      by_run : MatchingRun u ratio tables v w row → IsSound w
      by_run (MatchingRun.untouched _ _ e) = same h e
      by_run (MatchingRun.matched_to r at _ _ left) =
          let ((x, es, works), ms, vs, xs) = IsSound-Rows h at in
          sound_at h left.logged left.ends (
            (x, left.extractions ∙ es, works),
            first_row _ left.matches ms,
            left.validations ∙ vs,
            left.exports ∙ xs,
          )
      by_run (MatchingRun.nothing_extracted at none_found _ _) =
          let rows = IsSound-Rows h at in let found = found_result v rows.0 in cc

module _ (u : Unicode) (tables : Tables) where
  pub validation_stage-IsSound :
      (v w : Invoice) (row : Option Models.Validation)
      → validation_stage u tables v ≡ ok (row, w)
      → IsSound v
      → IsSound w
  validation_stage-IsSound v w row e h = by_run (validation_stage-ValidationRun u tables v w row e)
    where
      by_run : ValidationRun u tables v w row → IsSound w
      by_run (ValidationRun.untouched _ _ e) = same h e
      by_run (ValidationRun.ruled_on r at _ _ left) =
          let ((x, es, works), (m, ms), vs, xs) = IsSound-Rows h at in
          sound_at h left.logged left.ends (
            (x, left.extractions ∙ es, works),
            (m, left.matches ∙ ms),
            first_row _ left.validations vs,
            left.exports ∙ xs,
          )
      by_run (ValidationRun.nothing_extracted at none_found _ _) =
          let rows = IsSound-Rows h at in let found = found_result v rows.0 in cc

-- The rows of the first three kinds stay, and there is still no export.
IsRuled-still :
    {v w : Invoice} {s : InvoiceStatus}
    → Leaves v w s v.extractions v.matches v.validations v.exports
    → IsRuled v
    → IsRuled w
IsRuled-still left ((x, es, works), (m, ms), (y, vs), xs) = (
  (x, left.extractions ∙ es, works),
  (m, left.matches ∙ ms),
  (y, left.validations ∙ vs),
  left.exports ∙ xs,
)

pub approval_stage-IsSound :
    (v w : Invoice) (row : Option ApprovalDecision)
    → approval_stage v ≡ ok (row, w)
    → IsSound v
    → IsSound w
approval_stage-IsSound v w row e h = by_run (approval_stage-ApprovalRun v w row e)
  where
    by_run : ApprovalRun v w row → IsSound w
    by_run (ApprovalRun.untouched _ _ same_invoice) = same h same_invoice
    by_run (ApprovalRun.decided x y at _ _ _ left) =
        let ruled = IsRuled-still left (IsSound-Rows h at) in
        elim (decision_for-cases v x y) [
          | inl auto ↦
              let now = left.ends ∙ auto in
              let policy = (approval_stage_auto_iff v w row at e).0 now in
              sound_at h left.logged now
                (ruled, PolicyHolds-keeps left.extractions left.matches left.validations policy)
          | inr review ↦ sound_at h left.logged (left.ends ∙ review) ruled
        ]

ends_approved :
    (es : List AuditLog) (entry : AuditLog)
    → entry.to_status ≡ approved
    → any (λ e. AuditLog.to_status e == approved) (es ++ (entry ∷ [])) ≡ true
ends_approved [] entry h = ground (arith, h)
ends_approved (e ∷ es) entry h = ground (arith, ends_approved es entry h)

reviewed_sound :
    (approve : Bool) (actor : Text) (reason : Option Reason) (v : Invoice)
    → v.status ≡ needs_review
    → IsSound v
    → IsSound (moved v (verdict approve) actor reason)
unfolding can_transition
reviewed_sound true actor reason v at h =
    sound_at h (moved-Extends v approved actor reason (ap (λ s. can_transition s approved) at)) refl
      (IsSound-Rows h at, ends_approved v.audit_log _ refl)
reviewed_sound false actor reason v at h =
    sound_at h (moved-Extends v rejected actor reason (ap (λ s. can_transition s rejected) at)) refl
      (IsSound-Rows h at)

pub human_stage-IsSound :
    (approve : Bool) (actor : Text) (reason : Option Reason) (v w : Invoice)
    → human_stage approve actor reason v ≡ ok (tt, w)
    → IsSound v
    → IsSound w
human_stage-IsSound approve actor reason v w e h =
    let (at, is_moved) = (human_stage_iff approve actor reason v w).0 e in
    subst IsSound is_moved (reviewed_sound approve actor reason v at h)

pub exportable-cases :
    (s : InvoiceStatus) → is_exportable s ≡ true → (s ≡ auto_approved) ⊎ (s ≡ approved)
exportable-cases received h = ground arith
exportable-cases s h = ground arith

module _ (signer : Signer) (tables : Tables) (objects after : Objects) where
  pub export_stage-IsSound :
      (v w : Invoice) (row : Option Models.Export)
      → export_stage signer tables objects v ≡ ok (row, w, after)
      → IsSound v
      → IsSound w
  export_stage-IsSound v w row e h =
      by_run (export_stage-ExportRun signer tables objects after v w row e)
    where
      delivered :
          (x : Models.Export)
          → IsRuled v
          → HasGrounds w
          → Leaves v w exported v.extractions v.matches v.validations (v.exports ++ (x ∷ []))
          → IsSound w
      delivered x ((y, es, works), (m, ms), (z, vs), xs) grounds left =
          sound_at h left.logged left.ends (
            (y, left.extractions ∙ es, works),
            (m, left.matches ∙ ms),
            (z, left.validations ∙ vs),
            first_row x left.exports xs,
            grounds,
          )

      by_run : ExportRun signer tables v w row objects after → IsSound w
      by_run (ExportRun.untouched _ _ same_invoice _) = same h same_invoice
      by_run (ExportRun.sent r x at _ _ _ left) = elim (exportable-cases v.status at) [
        | inl auto ↦
            let (ruled, policy) = IsSound-Rows h auto in
            delivered x ruled
              (inl (PolicyHolds-keeps left.extractions left.matches left.validations policy)) left
        | inr human ↦
            let (ruled, reviewed) = IsSound-Rows h human in
            delivered x ruled (inr (WasReviewed-keeps left.logged reviewed)) left
      ]
