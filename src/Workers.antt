-- ===== src/Workers.antt =====
-- The worker tasks and the sessions that they run in, src/invoice_ops/workers/tasks.py and
-- src/invoice_ops/db.py, with `approve_and_export` of src/invoice_ops/services/approval.py. What is
-- committed, what is stored and what waits in the broker's queue is one record.
pub mod Staged
pub mod Stages
pub mod Keeps
pub mod Sessions
pub mod Consistent
pub mod Reachable
pub mod Guarantees
pub mod Queue
pub mod Handles
pub mod Pending
pub mod Progress
pub mod Drain
pub mod Hindered
pub mod Refused
use ai_account_payable_invoi.Prelude.{
  ◌&&◌, ℕ, Bool, true, false, Option, none, some, List, [], ◌∷◌, ◌++◌, map, ◌==◌, if◌then◌else◌,
}
use ai_account_payable_invoi.Text.{Text, Unicode}
use ai_account_payable_invoi.Config.{Settings}
use ai_account_payable_invoi.Float.{Float}
use ai_account_payable_invoi.Domain.State.{auto_approved, status_eq}
use ai_account_payable_invoi.Domain.Validation.{ValidationInput}
use ai_account_payable_invoi.Domain.Approval.{ApprovalDecision}
use ai_account_payable_invoi.Domain.Export.{Bytes}
use ai_account_payable_invoi.Models
use ai_account_payable_invoi.Models.{InvoiceMatch, Tables, Reason}
use ai_account_payable_invoi.Services.Outcome.{Result, ok, raised}
use ai_account_payable_invoi.Services.Session.{Objects}
use ai_account_payable_invoi.Services.Extraction.{Llm, Runtime, run_extraction}
use ai_account_payable_invoi.Services.Matching.{run_matching}
use ai_account_payable_invoi.Services.Validation.{run_validation}
use ai_account_payable_invoi.Services.Approval.{run_approval, record_human_decision}
use ai_account_payable_invoi.Services.Export.{Signer, run_export}
use ai_account_payable_invoi.Services.Ingestion.{World, IngestResult, ingest_upload}
use Prim.Native.String.{String}

-- A message in the queue: the task's name and the invoice's id.
pub data Task : Type 0 where
  to_extract to_match to_validate to_approve to_export : ℕ → Task

pub record System : Type 0 where
  pub tables : Tables
  pub objects : Objects
  pub tasks : List Task

-- What a task takes from its surroundings.
pub record Surroundings (Json : Type 0) : Type 0 where
  pub runtime : Runtime Json
  pub llm : Option Llm
  pub ratio : Text → Text → Float
  pub signer : Signer
  pub overflows : ValidationInput → Bool

-- `session_scope`: the body's changes are committed, or rolled back if it raises.
unfoldable pub session_scope {ℓ} :
    {A : Type ℓ} → (Tables → Result (A × Tables)) → Tables → Result A × Tables
session_scope body tables = elim (body tables) [
  | ok (value, changed) ↦ (ok value, changed)
  | raised why ↦ (raised why, tables)
]

-- The tasks that follow, by what the session gave. A task that raised sends none.
abbrev pub chain {ℓ} : {A : Type ℓ} → (A → List Task) → Result (Option A) → List Task
chain next (ok none) = []
chain next (ok (some row)) = next row
chain next (raised why) = []

-- The system after a session: what is committed, and the tasks that it sends.
abbrev pub settled {ℓ} :
    {A : Type ℓ} → System → (A → List Task) → Result (Option A) × Tables → System
settled s next (outcome, tables) = record s {
  tables = tables;
  tasks = s.tasks ++ chain next outcome;
}

module _ {Json : Type 0} (env : Surroundings Json) where
  unfoldable pub extract_invoice : ℕ → System → System
  extract_invoice id s =
      settled s (λ (x : Models.Extraction). if x.ok then to_match id ∷ [] else [])
        (session_scope (run_extraction env.runtime s.objects env.llm id) s.tables)

  unfoldable pub match_invoice : ℕ → System → System
  match_invoice id s =
      settled s (λ (m : InvoiceMatch). to_validate id ∷ [])
        (session_scope (run_matching env.runtime.unicode env.ratio id) s.tables)

  unfoldable pub validate_invoice : ℕ → System → System
  validate_invoice id s =
      settled s (λ (v : Models.Validation). to_approve id ∷ [])
        (session_scope (run_validation env.runtime.unicode env.overflows id) s.tables)

  unfoldable pub approve_invoice : ℕ → System → System
  approve_invoice id s =
      settled s
        (λ (d : ApprovalDecision). if d.outcome == auto_approved then to_export id ∷ [] else [])
        (session_scope (run_approval id) s.tables)

  -- The artifact is stored in the session's course, when nothing can raise any more.
  unfoldable pub export_invoice : ℕ → System → System
  export_invoice id s = elim (run_export env.signer id s.tables s.objects) [
    | ok (row, tables, objects) ↦ record s { tables = tables; objects = objects }
    | raised why ↦ s
  ]

  unfoldable pub run_task : Task → System → System
  run_task (to_extract id) s = extract_invoice id s
  run_task (to_match id) s = match_invoice id s
  run_task (to_validate id) s = validate_invoice id s
  run_task (to_approve id) s = approve_invoice id s
  run_task (to_export id) s = export_invoice id s

-- The export is sent only after a decision that did not raise.
abbrev pub if_decided : Result (Unit {0}) → Task → List Task
if_decided (ok done) task = task ∷ []
if_decided (raised why) task = []

-- `approve_and_export`: the decision is committed before the export is sent.
unfoldable pub approve_and_export : Text → Option Reason → ℕ → System → Result (Unit {0}) × System
approve_and_export actor reason id s =
    let (outcome, tables) = session_scope (record_human_decision true actor reason id) s.tables in
    (outcome, record s { tables = tables; tasks = s.tasks ++ if_decided outcome (to_export id) })

-- What the two callers of a rejection do.
unfoldable pub reject : Text → Option Reason → ℕ → System → Result (Unit {0}) × System
reject actor reason id s =
    let (outcome, tables) = session_scope (record_human_decision false actor reason id) s.tables in
    (outcome, record s { tables = tables })

-- A decision, as the two callers of the review make it.
unfoldable pub decide : Bool → Text → Option Reason → ℕ → System → Result (Unit {0}) × System
unfolding approve_and_export reject
decide approve actor reason id s =
    if approve then approve_and_export actor reason id s else reject actor reason id s

-- `extract_invoice.delay(...)` of an upload that made a row: the message waits in the queue, or the
-- eager mode has it handled before the call returns. `inline` is that handling, with the exception
-- that the eager mode hands on.
unfoldable pub delayed :
    Settings → (System → Result (Unit {0}) × System) → Bool → System → Result (Unit {0}) × System
delayed settings inline created s =
    if created && settings.celery_task_always_eager then inline s else (ok tt, s)

-- `ingest_upload` on the whole system, with the extraction task that it sends.
unfoldable pub upload : (Bytes → Text) → ℕ → Bytes → Text → String → System → IngestResult × System
upload sha256 id bytes filename content_type s =
    let before : World = record {
      invoices = s.tables.invoices;
      objects = s.objects;
      extract_tasks = [];
    } in
    let (result, after) = ingest_upload sha256 id bytes filename content_type [] before in
    (
      result,
      record s {
        tables = record s.tables { invoices = after.invoices };
        objects = after.objects;
        tasks = s.tasks ++ map to_extract after.extract_tasks;
      },
    )
