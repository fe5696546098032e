-- ===== src/Workers/Keeps.antt =====
-- Every run of a stage extends the log and keeps an invoice sound.
use mathlib.Core.Path.{subst}
use ai_account_payable_invoi.Prelude.{◌≡◌, sym, ap, inl, inr, Bool, Option}
use ai_account_payable_invoi.Text.{Text, Unicode}
use ai_account_payable_invoi.Float.{Float}
use ai_account_payable_invoi.Domain.State.{status_eq}
use ai_account_payable_invoi.Domain.Approval.{ApprovalDecision}
use ai_account_payable_invoi.Models
use ai_account_payable_invoi.Models.{Invoice, InvoiceMatch, AuditLog, Tables, Reason}
use ai_account_payable_invoi.Services.Outcome.{ok}
use ai_account_payable_invoi.Services.Session.{Objects}
use ai_account_payable_invoi.Services.Lifecycle.History.{Extends}
use ai_account_payable_invoi.Services.Extraction.{Llm, Runtime, extraction_stage}
use ai_account_payable_invoi.Services.Extraction.Stage.{
  Ran, succeeded, gave_up, extraction_stage-Ran,
}
use ai_account_payable_invoi.Services.Matching.{matching_stage}
use ai_account_payable_invoi.Services.Matching.Stage.{MatchingRun, matching_stage-MatchingRun}
use ai_account_payable_invoi.Services.Validation.{validation_stage}
use ai_account_payable_invoi.Services.Validation.Stage.{
  ValidationRun, validation_stage-ValidationRun,
}
use ai_account_payable_invoi.Services.Approval.{approval_stage, human_stage}
use ai_account_payable_invoi.Services.Approval.Stage.{ApprovalRun, approval_stage-ApprovalRun}
use ai_account_payable_invoi.Services.Export.{Signer, export_stage}
use ai_account_payable_invoi.Services.Export.Stage.{ExportRun, export_stage-ExportRun}
use ai_account_payable_invoi.Workers.Staged.{IsSound}
use ai_account_payable_invoi.Services.Outcome.{>>=-eq-ok}
use ai_account_payable_invoi.Services.Lifecycle.{advance}
use ai_account_payable_invoi.Services.Lifecycle.History.{
  Extends-refl, advance-Extends, ok-injective,
}
use ai_account_payable_invoi.Workers.Stages.{
  extraction_stage-IsSound, matching_stage-IsSound, validation_stage-IsSound,
  approval_stage-IsSound, human_stage-IsSound, export_stage-IsSound,
}

-- A run of a stage extends the log, and keeps an invoice sound.
pub record Keeps (v w : Invoice) : Type 0 where
  pub extends : Extends v w
  pub sound : IsSound v → IsSound w

as_it_was : {v w : Invoice} → w ≡ v → Extends v w
as_it_was {v} e = subst (λ x. Extends v x) (sym e) (Extends-refl v)

pub extraction_stage-Keeps :
    {Json : Type 0} (rt : Runtime Json) (objects : Objects) (llm : Option Llm) (v w : Invoice)
    (row : Option Models.Extraction)
    → extraction_stage rt objects llm v ≡ ok (row, w)
    → Keeps v w
extraction_stage-Keeps rt objects llm v w row e = record {
  extends = elim (extraction_stage-Ran rt objects llm v w row e) [
    | inl (_, _, untouched) ↦ as_it_was untouched
    | inr (_, ran) ↦ by_run ran
  ];
  sound = extraction_stage-IsSound rt objects llm v w row e;
}
  where
    by_run : Ran v w row → Extends v w
    by_run (succeeded _ _ _ a _) = a.logged
    by_run (gave_up _ _ _ a _) = a.logged

pub matching_stage-Keeps :
    (u : Unicode) (ratio : Text → Text → Float) (tables : Tables) (v w : Invoice)
    (row : Option InvoiceMatch)
    → matching_stage u ratio tables v ≡ ok (row, w)
    → Keeps v w
matching_stage-Keeps u ratio tables v w row e = record {
  extends = by_run (matching_stage-MatchingRun u ratio tables v w row e);
  sound = matching_stage-IsSound u ratio tables v w row e;
}
  where
    by_run : MatchingRun u ratio tables v w row → Extends v w
    by_run (MatchingRun.untouched _ _ e) = as_it_was e
    by_run (MatchingRun.matched_to _ _ _ _ left) = left.logged
    by_run (MatchingRun.nothing_extracted _ _ _ left) = left.logged

pub validation_stage-Keeps :
    (u : Unicode) (tables : Tables) (v w : Invoice) (row : Option Models.Validation)
    → validation_stage u tables v ≡ ok (row, w)
    → Keeps v w
validation_stage-Keeps u tables v w row e = record {
  extends = by_run (validation_stage-ValidationRun u tables v w row e);
  sound = validation_stage-IsSound u tables v w row e;
}
  where
    by_run : ValidationRun u tables v w row → Extends v w
    by_run (ValidationRun.untouched _ _ e) = as_it_was e
    by_run (ValidationRun.ruled_on _ _ _ _ left) = left.logged
    by_run (ValidationRun.nothing_extracted _ _ _ left) = left.logged

pub approval_stage-Keeps :
    (v w : Invoice) (row : Option ApprovalDecision) → approval_stage v ≡ ok (row, w) → Keeps v w
approval_stage-Keeps v w row e = record {
  extends = by_run (approval_stage-ApprovalRun v w row e);
  sound = approval_stage-IsSound v w row e;
}
  where
    by_run : ApprovalRun v w row → Extends v w
    by_run (ApprovalRun.untouched _ _ e) = as_it_was e
    by_run (ApprovalRun.decided _ _ _ _ _ _ left) = left.logged

pub human_stage-Keeps :
    (approve : Bool) (actor : Text) (reason : Option Reason) (v w : Invoice) (done : Unit {0})
    → human_stage approve actor reason v ≡ ok (done, w)
    → Keeps v w
unfolding human_stage
human_stage-Keeps approve actor reason v w done e =
    let (x, moves, last) = >>=-eq-ok (advance v _ actor reason) _ e in
    record {
      extends =
          subst (λ y. Extends v y) (ap (λ p. p.1) (ok-injective last))
            (advance-Extends v x _ actor reason moves);
      sound = human_stage-IsSound approve actor reason v w e;
    }

pub export_stage-Keeps :
    (signer : Signer) (tables : Tables) (objects after : Objects) (v w : Invoice)
    (row : Option Models.Export)
    → export_stage signer tables objects v ≡ ok (row, w, after)
    → Keeps v w
export_stage-Keeps signer tables objects after v w row e = record {
  extends = by_run (export_stage-ExportRun signer tables objects after v w row e);
  sound = export_stage-IsSound signer tables objects after v w row e;
}
  where
    by_run : ExportRun signer tables v w row objects after → Extends v w
    by_run (ExportRun.untouched _ _ e _) = as_it_was e
    by_run (ExportRun.sent _ _ _ _ _ _ left) = left.logged
