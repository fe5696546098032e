-- ===== src/Tests/Runs.antt =====
-- One invoice on its way through the whole system, from the upload to the export.
use ai_account_payable_invoi.Prelude.{
  ℕ, inr, ap, arith, All, length, ◌*◌, ◌≤◌, ◌≡◌, refl, true, false, none, some, [], ◌∷◌,
}
use ai_account_payable_invoi.Text.{Text, text, strip}
use ai_account_payable_invoi.Domain.Approval.{decide_approval}
use ai_account_payable_invoi.Domain.Export.{Bytes}
use ai_account_payable_invoi.Domain.Extraction.{ExtractionResult}
use ai_account_payable_invoi.Domain.State.{exported, can_transition}
use ai_account_payable_invoi.Domain.Validation.{
  run_rules, has_blocking_failure, rule_required_fields_present, missing_required,
}
use ai_account_payable_invoi.Models.{Invoice, find_vendor, find_order, find_invoice, store_invoice}
use ai_account_payable_invoi.Services.Lifecycle.{advance}
use ai_account_payable_invoi.Services.Session.{on_invoice, get_object}
use ai_account_payable_invoi.Services.Ingestion.{find_digest, ingest_upload, insert_or_winner}
use ai_account_payable_invoi.Services.Documents.{extract_text, is_blank}
use ai_account_payable_invoi.Services.Extraction.{
  run_extraction, extract_with_retry, latest_successful_extraction, parsed,
}
use ai_account_payable_invoi.Services.Matching.{run_matching, extracted_result, latest_match}
use ai_account_payable_invoi.Services.Validation.{
  run_validation, checked_stage, overflows_at, validation_stage, validation_input,
}
use ai_account_payable_invoi.Services.Approval.{
  run_approval, decision_for, latest_validation, vendor_identified, has_order, human_stage,
  record_human_decision,
}
use ai_account_payable_invoi.Services.Export.{run_export, export_stage}
use ai_account_payable_invoi.Workers.{
  Task, to_extract, to_match, to_validate, to_approve, to_export, System, Surroundings, upload,
  run_task, session_scope, extract_invoice, match_invoice, validate_invoice, approve_invoice,
  export_invoice, decide, approve_and_export,
}
use ai_account_payable_invoi.Workers.Reachable.{
  IsDependable, uploads, delivers, restocks, decides, Reaches, here, later, empty_system,
  reachable-IsConsistent,
}
use ai_account_payable_invoi.Workers.Consistent.{IsConsistent}
use ai_account_payable_invoi.Workers.Pending.{AllWait}
use ai_account_payable_invoi.Workers.Drain.{deliver_all, IsAtRest, deliver_all-IsAtRest}
use ai_account_payable_invoi.Workers.Progress.{reachable-AllWait}
use ai_account_payable_invoi.Workers.Staged.{HasOne, HasGrounds}
use ai_account_payable_invoi.Workers.Guarantees.{exported_once, tasks-Returns}
use ai_account_payable_invoi.Services.Returns.{Returns}
use mathlib.Core.Option.{get_or}
use ai_account_payable_invoi.Tests.Data.{runtime, model, same_or_not, signer, tables, fresh}

abbrev pub digest : Bytes → Text
digest bytes = bytes

-- The model reads nothing from the document.
abbrev nothing_read : ExtractionResult
nothing_read = record {
  invoice = record {
    supplier_name = none;
    supplier_tax_id = none;
    invoice_number = none;
    invoice_date = none;
    currency = none;
    purchase_order_number = none;
    line_items = [];
    subtotal = none;
    tax_amount = none;
    total = none;
  };
  field_confidence = [];
  notes = none;
}

abbrev pub env : Surroundings Text
env = record {
  runtime = record runtime { model_validate = λ t. parsed nothing_read };
  llm = some model;
  ratio = same_or_not;
  signer = signer;
  overflows = λ inp. false;
}

abbrev pub stocked : System
stocked = record empty_system {
  tables = record {
    invoices = [];
    vendors = tables.vendors;
    purchase_orders = tables.purchase_orders;
  };
}

abbrev pub arrived : System
arrived = (upload digest 5 (1 ∷ 2 ∷ 3 ∷ []) (text "a.pdf") "application/pdf" stocked).1

-- The next task is delivered, the only one that waits.
abbrev pub deliver : Task → System → System
deliver t s = run_task env t (record s { tasks = [] })

abbrev pub was_extracted : System
was_extracted = deliver (to_extract 5) arrived

abbrev pub was_matched : System
was_matched = deliver (to_match 5) was_extracted

abbrev pub was_validated : System
was_validated = deliver (to_validate 5) was_matched

abbrev pub was_referred : System
was_referred = deliver (to_approve 5) was_validated

abbrev pub was_approved : System
was_approved = (decide true (text "ann") none 5 was_referred).1

abbrev pub was_exported : System
was_exported = deliver (to_export 5) was_approved

nothing_there : find_invoice 5 stocked.tables.invoices ≡ none
unfolding find_invoice
nothing_there = refl

pub arrived_tasks : arrived.tasks ≡ to_extract 5 ∷ []
unfolding upload ingest_upload insert_or_winner find_digest
arrived_tasks = refl

extracted_tasks : was_extracted.tasks ≡ to_match 5 ∷ []
unfolding run_task extract_invoice session_scope run_extraction on_invoice find_invoice upload
    ingest_upload find_digest advance can_transition get_object extract_text is_blank strip
    extract_with_retry
extracted_tasks = refl

matched_tasks : was_matched.tasks ≡ to_validate 5 ∷ []
unfolding run_task extract_invoice session_scope run_extraction on_invoice find_invoice upload
    ingest_upload find_digest advance can_transition get_object extract_text is_blank strip
    extract_with_retry match_invoice run_matching store_invoice extracted_result
    latest_successful_extraction
matched_tasks = refl

validated_tasks : was_validated.tasks ≡ to_approve 5 ∷ []
unfolding run_task extract_invoice session_scope run_extraction on_invoice find_invoice upload
    ingest_upload find_digest advance can_transition get_object extract_text is_blank strip
    extract_with_retry match_invoice run_matching store_invoice extracted_result
    latest_successful_extraction validate_invoice run_validation checked_stage overflows_at
    validation_stage
validated_tasks = refl

referred_tasks : was_referred.tasks ≡ []
unfolding run_task extract_invoice session_scope run_extraction on_invoice find_invoice upload
    ingest_upload find_digest advance can_transition get_object extract_text is_blank strip
    extract_with_retry match_invoice run_matching store_invoice extracted_result
    latest_successful_extraction validate_invoice run_validation checked_stage overflows_at
    validation_stage approve_invoice run_approval latest_validation decision_for vendor_identified
    latest_match has_order decide_approval has_blocking_failure run_rules
    rule_required_fields_present missing_required validation_input
referred_tasks = refl

approved_tasks : was_approved.tasks ≡ to_export 5 ∷ []
unfolding run_task extract_invoice session_scope run_extraction on_invoice find_invoice upload
    ingest_upload find_digest advance can_transition get_object extract_text is_blank strip
    extract_with_retry match_invoice run_matching store_invoice extracted_result
    latest_successful_extraction validate_invoice run_validation checked_stage overflows_at
    validation_stage approve_invoice run_approval latest_validation decision_for vendor_identified
    latest_match has_order decide_approval decide approve_and_export record_human_decision
    human_stage has_blocking_failure run_rules rule_required_fields_present missing_required
    validation_input
approved_tasks = refl

abbrev invoice_in : System → Invoice
invoice_in s = get_or (find_invoice 5 s.tables.invoices) fresh

found_approved : find_invoice 5 was_approved.tables.invoices ≡ some (invoice_in was_approved)
unfolding run_task extract_invoice session_scope run_extraction on_invoice find_invoice upload
    ingest_upload find_digest advance can_transition get_object extract_text is_blank strip
    extract_with_retry match_invoice run_matching store_invoice extracted_result
    latest_successful_extraction validate_invoice run_validation checked_stage overflows_at
    validation_stage approve_invoice run_approval latest_validation decision_for vendor_identified
    latest_match has_order decide_approval decide approve_and_export record_human_decision
    human_stage has_blocking_failure run_rules rule_required_fields_present missing_required
    validation_input
found_approved = refl

found_exported : find_invoice 5 was_exported.tables.invoices ≡ some (invoice_in was_exported)
unfolding run_task extract_invoice session_scope run_extraction on_invoice find_invoice upload
    ingest_upload find_digest advance can_transition get_object extract_text is_blank strip
    extract_with_retry match_invoice run_matching store_invoice extracted_result
    latest_successful_extraction validate_invoice run_validation checked_stage overflows_at
    validation_stage approve_invoice run_approval latest_validation decision_for vendor_identified
    latest_match has_order decide_approval decide approve_and_export record_human_decision
    human_stage has_blocking_failure run_rules rule_required_fields_present missing_required
    validation_input export_invoice run_export export_stage
found_exported = refl

is_exported : (invoice_in was_exported).status ≡ exported
unfolding run_task extract_invoice session_scope run_extraction on_invoice find_invoice upload
    ingest_upload find_digest advance can_transition get_object extract_text is_blank strip
    extract_with_retry match_invoice run_matching store_invoice extracted_result
    latest_successful_extraction validate_invoice run_validation checked_stage overflows_at
    validation_stage approve_invoice run_approval latest_validation decision_for vendor_identified
    latest_match has_order decide_approval decide approve_and_export record_human_decision
    human_stage has_blocking_failure run_rules rule_required_fields_present missing_required
    validation_input export_invoice run_export export_stage
is_exported = refl

pub dependable : IsDependable env
dependable = record { takes = λ key bytes. refl; in_range = λ inp. refl }

stocks_vendors : (i : ℕ) → find_vendor i tables.vendors ≡ none → find_vendor i [] ≡ none
unfolding find_vendor
stocks_vendors i h = refl

stocks_orders : (i : ℕ) → find_order i tables.purchase_orders ≡ none → find_order i [] ≡ none
unfolding find_order
stocks_orders i h = refl

to_arrived : Reaches Text digest false empty_system arrived
to_arrived =
    later stocked arrived
      (later empty_system stocked here
        (restocks tables.vendors tables.purchase_orders stocks_vendors stocks_orders refl))
      (uploads 5 (1 ∷ 2 ∷ 3 ∷ []) (text "a.pdf") "application/pdf" nothing_there refl)

to_approved : Reaches Text digest false empty_system was_approved
to_approved =
    later was_referred was_approved
      (later was_validated was_referred
        (later was_matched was_validated
          (later was_extracted was_matched
            (later arrived was_extracted to_arrived
              (delivers env [] [] (to_extract 5) (inr dependable) arrived_tasks refl))
            (delivers env [] [] (to_match 5) (inr dependable) extracted_tasks refl))
          (delivers env [] [] (to_validate 5) (inr dependable) matched_tasks refl))
        (delivers env [] [] (to_approve 5) (inr dependable) validated_tasks refl))
      (decides true (text "ann") none 5 refl)

to_exported : Reaches Text digest false empty_system was_exported
to_exported =
    later was_approved was_exported to_approved
      (delivers env [] [] (to_export 5) (inr dependable) approved_tasks refl)

reachable-IsConsistent_example : IsConsistent was_exported.tables.invoices
reachable-IsConsistent_example = reachable-IsConsistent was_exported to_exported

reachable-AllWait_example : AllWait was_approved
reachable-AllWait_example = reachable-AllWait was_approved to_approved

exported_once_example :
    HasOne (invoice_in was_exported).exports × HasGrounds (invoice_in was_exported)
exported_once_example =
    exported_once digest false was_exported to_exported 5 (invoice_in was_exported) found_exported
      is_exported

tasks-Returns_example :
    Returns (run_matching env.runtime.unicode env.ratio 5 was_approved.tables)
    × Returns (run_validation env.runtime.unicode env.overflows 5 was_approved.tables)
    × Returns (run_approval 5 was_approved.tables)
    × Returns (run_export env.signer 5 was_approved.tables was_approved.objects)
tasks-Returns_example =
    tasks-Returns digest false was_approved to_approved 5 (invoice_in was_approved) found_approved
      env dependable

one_waits : 5 * length arrived.tasks ≤ 5
one_waits = omega (arith, ap length arrived_tasks)

deliver_all-IsAtRest_example :
    let after = deliver_all (λ n. env) 5 arrived in
    (after.tasks ≡ []) × All (λ v. IsAtRest v.status) after.tables.invoices
deliver_all-IsAtRest_example =
    deliver_all-IsAtRest digest arrived to_arrived (λ n. env) 5 (λ n. dependable) one_waits
