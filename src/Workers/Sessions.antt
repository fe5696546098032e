-- ===== src/Workers/Sessions.antt =====
-- What a session leaves in the tables: all as before, or one invoice replaced by what a stage made
-- of it.
use ai_account_payable_invoi.Prelude.{
  ℕ, ◌≡◌, refl, sym, ap, ◌∙◌, Bool, true, false, Option, some, inl, inr,
}
use ai_account_payable_invoi.Text.{Text}
use ai_account_payable_invoi.Models
use ai_account_payable_invoi.Models.{Invoice, Tables, Reason, find_invoice, store_invoice}
use ai_account_payable_invoi.Services.Outcome.{
  Result, ok, Result-cases, >>=-eq-ok, or_raise, invoice_not_found,
}
use ai_account_payable_invoi.Services.Lifecycle.History.{ok-injective}
use ai_account_payable_invoi.Services.Session.{Objects, on_invoice}
use ai_account_payable_invoi.Services.Session.Frame.{on_invoice-eq-ok, or_raise-eq-ok}
use ai_account_payable_invoi.Services.Extraction.{run_extraction}
use ai_account_payable_invoi.Services.Matching.{run_matching}
use ai_account_payable_invoi.Services.Validation.{run_validation}
use ai_account_payable_invoi.Services.Approval.{run_approval, record_human_decision}
use ai_account_payable_invoi.Services.Export.{run_export, export_stage}
use ai_account_payable_invoi.Services.Validation.Overflow.{checked_stage-eq-ok}
use ai_account_payable_invoi.Workers.{
  Task, to_extract, to_match, to_validate, to_approve, to_export, System, Surroundings,
  session_scope, extract_invoice, match_invoice, validate_invoice, approve_invoice, export_invoice,
  run_task, approve_and_export, reject, decide,
}
use ai_account_payable_invoi.Workers.Keeps.{
  Keeps, extraction_stage-Keeps, matching_stage-Keeps, validation_stage-Keeps, approval_stage-Keeps,
  human_stage-Keeps, export_stage-Keeps,
}

pub data Session (before after : Tables) : Type 0 where
  rolled_back : after ≡ before → Session before after
  committed :
      (id : ℕ) (v w : Invoice)
      → find_invoice id before.invoices ≡ some v
      → Keeps v w
      → record before { invoices = store_invoice w before.invoices } ≡ after
      → Session before after

pub session_scope-Session {ℓ} :
    {A : Type ℓ} (body : Tables → Result (A × Tables)) (stage : Invoice → Result (A × Invoice))
    (id : ℕ) (tables : Tables)
    → body tables ≡ on_invoice stage id tables
    → ((v w : Invoice) (row : A) → stage v ≡ ok (row, w) → Keeps v w)
    → Session tables (session_scope body tables).1
unfolding session_scope
session_scope-Session body stage id tables is keeps = elim (Result-cases (body tables)) [
  | inl (why, e) ↦ rw (session_scope, e) (rolled_back refl)
  | inr ((row, changed), e) ↦
      let (v, w, found, ran, same) = on_invoice-eq-ok stage id tables changed row (sym is ∙ e) in
      rw (session_scope, e) (committed id v w found (keeps v w row ran) same)
]

module _ {Json : Type 0} (env : Surroundings Json) where
  export_invoice-Session : (id : ℕ) (s : System) → Session s.tables (export_invoice env id s).tables
  unfolding export_invoice run_export
  export_invoice-Session id s = elim (Result-cases (run_export env.signer id s.tables s.objects)) [
    | inl (why, e) ↦ rw (export_invoice, e) (rolled_back refl)
    | inr ((row, tables, objects), e) ↦
        let (v, found, rest) =
          >>=-eq-ok (or_raise (find_invoice id s.tables.invoices) (invoice_not_found id)) _ e in
        let ((row', w, after), ran, last) =
          >>=-eq-ok (export_stage env.signer s.tables s.objects v) _ rest in
        rw (export_invoice, e)
          (committed id v w (or_raise-eq-ok _ _ found)
            (export_stage-Keeps env.signer s.tables s.objects after v w row' ran)
            (ap (λ (p : Option Models.Export × Tables × Objects). p.1) (ok-injective last)))
  ]

  -- Every task leaves the tables as a session does.
  pub run_task-Session : (t : Task) (s : System) → Session s.tables (run_task env t s).tables
  unfolding run_task extract_invoice match_invoice validate_invoice approve_invoice run_extraction
      run_matching run_validation run_approval
  run_task-Session (to_extract id) s =
      session_scope-Session _ _ id s.tables refl
        (extraction_stage-Keeps env.runtime s.objects env.llm)
  run_task-Session (to_match id) s =
      session_scope-Session _ _ id s.tables refl
        (matching_stage-Keeps env.runtime.unicode env.ratio s.tables)
  run_task-Session (to_validate id) s = session_scope-Session _ _ id s.tables refl (λ v w row e.
      validation_stage-Keeps env.runtime.unicode s.tables v w row
        (checked_stage-eq-ok env.runtime.unicode env.overflows s.tables v w row e))
  run_task-Session (to_approve id) s =
      session_scope-Session _ _ id s.tables refl approval_stage-Keeps
  run_task-Session (to_export id) s = export_invoice-Session id s

-- And so does every decision.
pub decide-Session :
    (approve : Bool) (actor : Text) (reason : Option Reason) (id : ℕ) (s : System)
    → Session s.tables (decide approve actor reason id s).1.tables
unfolding decide approve_and_export reject record_human_decision
decide-Session true actor reason id s =
    session_scope-Session _ _ id s.tables refl (human_stage-Keeps true actor reason)
decide-Session false actor reason id s =
    session_scope-Session _ _ id s.tables refl (human_stage-Keeps false actor reason)
