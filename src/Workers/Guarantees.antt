-- ===== src/Workers/Guarantees.antt =====
-- What holds of every invoice in a system that uploads, tasks and decisions lead to.
use ai_account_payable_invoi.Prelude.{
  ℕ, ◌≡◌, ◌≢◌, refl, Bool, Bool-cases, none, some, inl, inr, ◌==◌,
}
use ai_account_payable_invoi.Text.{Text}
use ai_account_payable_invoi.Domain.State.{
  extracting, matching, validated, exporting, exported, status_eq,
}
use ai_account_payable_invoi.Domain.Export.{Bytes}
use ai_account_payable_invoi.Models.{Invoice, Tables, find_invoice, store_invoice}
use ai_account_payable_invoi.Services.Outcome.{Result}
use ai_account_payable_invoi.Services.Session.{on_invoice}
use ai_account_payable_invoi.Services.Session.Frame.{find_invoice-All}
use ai_account_payable_invoi.Services.Matching.{run_matching}
use ai_account_payable_invoi.Services.Validation.{run_validation}
use ai_account_payable_invoi.Services.Approval.{run_approval, approval_stage}
use ai_account_payable_invoi.Services.Export.{run_export, export_stage, is_exportable}
use ai_account_payable_invoi.Services.Returns.{
  Returns, Takes, matching_stage-Returns, checked_stage-Returns, approval_stage-Returns,
  export_stage-Returns,
}
use ai_account_payable_invoi.Workers.{System, Surroundings}
use ai_account_payable_invoi.Workers.Staged.{
  IsSound, HasOne, HasGrounds, HasExtraction, IsSound-Rows, found_extraction, found_result,
  found_validation,
}
use ai_account_payable_invoi.Workers.Stages.{exportable-cases}
use ai_account_payable_invoi.Workers.Reachable.{
  IsDependable, Reaches, empty_system, reachable-IsConsistent,
}

pub approval_stage_sound-Returns : (v : Invoice) → IsSound v → Returns (approval_stage v)
unfolding approval_stage
approval_stage_sound-Returns v h = elim (Bool-cases (v.status == validated)) [
  | inr n ↦ ((none, v), rw n refl)
  | inl y ↦
      let (extraction, matched, validation, _) =
        IsSound-Rows h ((status_eq.beq_iff v.status validated).0 y) in
      approval_stage-Returns v validation.0 extraction.0 (found_validation v validation)
        (found_extraction v extraction)
]

module _ {Json : Type 0} (env : Surroundings Json) (s : System) where
  pub export_stage_sound-Returns :
      (v : Invoice)
      → Takes env.signer
      → IsSound v
      → Returns (export_stage env.signer s.tables s.objects v)
  unfolding export_stage
  export_stage_sound-Returns v takes h = elim (Bool-cases (is_exportable v.status)) [
    | inr n ↦ ((none, v, s.objects), rw n refl)
    | inl y ↦
        let extraction : HasExtraction v = elim (exportable-cases v.status y) [
          | inl auto ↦ (IsSound-Rows h auto).0.0
          | inr human ↦ (IsSound-Rows h human).0.0
        ] in
        export_stage-Returns env.signer s.tables s.objects v extraction.2.result (takes _ _)
          (found_result v extraction)
  ]

pub on_invoice-Returns {ℓ} :
    {A : Type ℓ} (stage : Invoice → Result (A × Invoice)) (id : ℕ) (tables : Tables) (v : Invoice)
    → find_invoice id tables.invoices ≡ some v
    → Returns (stage v)
    → Returns (on_invoice stage id tables)
unfolding on_invoice
on_invoice-Returns stage id tables v found ((row, w), e) =
    ((row, record tables { invoices = store_invoice w tables.invoices }), rw (found, e) refl)

module _ {Json : Type 0} (sha256 : Bytes → Text) (may_lose : Bool) (s : System)
    (path : Reaches Json sha256 may_lose empty_system s) (id : ℕ) (v : Invoice)
    (found : find_invoice id s.tables.invoices ≡ some v) where
  pub found-IsSound : IsSound v
  found-IsSound =
      find_invoice-All IsSound id s.tables.invoices v found (reachable-IsConsistent s path).sound

  pub committed_status : (v.status ≢ extracting) × (v.status ≢ matching) × (v.status ≢ exporting)
  committed_status = (
    λ e. IsSound-Rows found-IsSound e,
    λ e. IsSound-Rows found-IsSound e,
    λ e. IsSound-Rows found-IsSound e,
  )

  -- In a system that the steps, in which no vendor or order is deleted, lead to from the empty one,
  -- an invoice that is EXPORTED has exactly one export, and either the approval policy holds of its
  -- rows or a reviewer approved it.
  pub exported_once : v.status ≡ exported → HasOne v.exports × HasGrounds v
  exported_once e = let (_, _, _, one, grounds) = IsSound-Rows found-IsSound e in (one, grounds)

  -- In a system that the steps lead to from the empty one, and if the storage takes every artifact
  -- and no rule's arithmetic overflows, the matching, the validation, the approval and the export
  -- of an invoice that is there return, whatever its status.
  pub tasks-Returns :
      (env : Surroundings Json)
      → IsDependable env
      → Returns (run_matching env.runtime.unicode env.ratio id s.tables)
        × Returns (run_validation env.runtime.unicode env.overflows id s.tables)
        × Returns (run_approval id s.tables)
        × Returns (run_export env.signer id s.tables s.objects)
  unfolding run_matching run_validation run_approval run_export
  tasks-Returns env dependable =
      let ((row, w, objects), e) =
        export_stage_sound-Returns env s v dependable.takes found-IsSound in
      (
        on_invoice-Returns _ id s.tables v found
            (matching_stage-Returns env.runtime.unicode env.ratio s.tables v),
        on_invoice-Returns _ id s.tables v found (
            checked_stage-Returns env.runtime.unicode s.tables env.overflows v dependable.in_range),
        on_invoice-Returns _ id s.tables v found (approval_stage_sound-Returns v found-IsSound),
        (
          (row, record s.tables { invoices = store_invoice w s.tables.invoices }, objects),
          rw (found, e) refl,
        ),
      )
