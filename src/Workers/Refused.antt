-- ===== src/Workers/Refused.antt =====
-- What the export task does to an approved invoice whose artifact the storage does not take,
-- `export_invoice` of src/invoice_ops/workers/tasks.py.
use ai_account_payable_invoi.Prelude.{
  ℕ, ◌≡◌, ◌≢◌, ◌↔◌, refl, sym, ap, ◌∙◌, true, Option, some, Option-cases, inl, inr,
}
use ai_account_payable_invoi.Text.{Text}
use ai_account_payable_invoi.Domain.State.{exporting}
use ai_account_payable_invoi.Domain.Extraction.{ExtractionResult}
use ai_account_payable_invoi.Models
use ai_account_payable_invoi.Models.{Invoice, find_invoice, store_invoice}
use ai_account_payable_invoi.Services.Outcome.{Error, ok, raised, storage_error}
use ai_account_payable_invoi.Services.Session.{Objects}
use ai_account_payable_invoi.Services.Session.Frame.{find_invoice-store, find_invoice-id}
use ai_account_payable_invoi.Services.Lifecycle.{system}
use ai_account_payable_invoi.Services.Lifecycle.History.{advance_iff, absurd_test}
use ai_account_payable_invoi.Services.Matching.{extracted_result}
use ai_account_payable_invoi.Services.Export.{
  is_exportable, payload_for, export_key, put_artifact, send, write_export, export_stage,
  run_export,
}
use ai_account_payable_invoi.Services.Export.Stage.{
  begun, ExportRun, untouched, sent, export_stage-ExportRun,
}
use ai_account_payable_invoi.Services.Returns.{exportable_open, export_stage-Returns}
use ai_account_payable_invoi.Workers.{System, Surroundings, export_invoice}

some_same : {v w : Invoice} → some v ≡ some w → v ≡ w
some_same e = cc

-- What the storage says to the put of the invoice's artifact.
abbrev pub put_answer :
    {Json : Type 0} → Surroundings Json → System → Invoice → ExtractionResult → Option Text
put_answer env s v r =
    env.signer.put_fault (export_key env.signer v.id)
      (env.signer.encode (payload_for env.signer s.tables (begun v) v.status r.invoice))

module _ {Json : Type 0} (env : Surroundings Json) (id : ℕ) (s : System) (v : Invoice)
    (r : ExtractionResult) (found : find_invoice id s.tables.invoices ≡ some v)
    (at : is_exportable v.status ≡ true) (has : extracted_result v ≡ some r) where
  refused_stage :
      (why : Text)
      → put_answer env s v r ≡ some why
      → export_stage env.signer s.tables s.objects v ≡ raised (storage_error why)
  unfolding export_stage write_export send
  refused_stage why q =
      let starts =
        (advance_iff v (begun v) exporting system _).1 (exportable_open v.status at, refl) in
      rw (export_stage, at, has, write_export, starts, send, put_artifact, q) refl

  refused_task :
      (why : Error)
      → export_stage env.signer s.tables s.objects v ≡ raised why
      → export_invoice env id s ≡ s
  unfolding export_invoice run_export
  refused_task why q = rw (export_invoice, run_export, found, q) refl

  taken_task :
      (row : Option Models.Export) (w : Invoice) (after : Objects)
      → export_stage env.signer s.tables s.objects v ≡ ok (row, w, after)
      → w.id ≡ id
      → find_invoice id (export_invoice env id s).tables.invoices ≡ some w
  unfolding export_invoice run_export
  taken_task row w after q same =
      rw (export_invoice, run_export, found, q)
        (find_invoice-store id v w s.tables.invoices found same)

  -- A run that returns moves the invoice.
  export_stage-leaves :
      (row : Option Models.Export) (w : Invoice) (after : Objects)
      → export_stage env.signer s.tables s.objects v ≡ ok (row, w, after)
      → (w.id ≡ v.id) × (w.status ≢ v.status)
  export_stage-leaves row w after q =
      by_run (export_stage-ExportRun env.signer s.tables s.objects after v w row q)
    where
      by_run :
          ExportRun env.signer s.tables v w row s.objects after
          → (w.id ≡ v.id) × (w.status ≢ v.status)
      by_run (untouched n _ _ _) = absurd_test n at
      by_run (sent r x _ _ _ _ left) =
          (left.logged.same_id, λ e. absurd_test refl (ap is_exportable (sym left.ends ∙ e) ∙ at))

  -- The export task of an invoice that is found APPROVED or AUTO_APPROVED, with extracted data,
  -- leaves the tables, the stored objects and the queue as they were exactly when the storage
  -- raises at the put of its artifact.
  pub export_invoice_idle_iff :
      (export_invoice env id s ≡ s) ↔ ((why : Text) × (put_answer env s v r ≡ some why))
  export_invoice_idle_iff = (
    λ e. elim (Option-cases (put_answer env s v r)) [
      | inr refused ↦ refused
      | inl taken ↦
          let ((row, w, after), q) =
            export_stage-Returns env.signer s.tables s.objects v r taken has in
          let (same_id, other) = export_stage-leaves row w after q in
          let same : some w ≡ some v =
            sym (taken_task row w after q (same_id ∙ find_invoice-id id s.tables.invoices v found))
            ∙ ap (λ t. find_invoice id t.tables.invoices) e
            ∙ found in
          absurd (other (ap (λ x. x.status) (some_same same)))
    ],
    λ (why, q). refused_task _ (refused_stage why q),
  )
