-- ===== src/Workers/Progress.antt =====
-- Every step of the system keeps the queue complete, as long as nothing is lost.
use mathlib.Core.List.{append-nil}
use mathlib.Core.Path.{subst}
use Prim.Native.String.{String}
use ai_account_payable_invoi.Prelude.{
  ℕ, ◌≡◌, refl, sym, ◌∙◌, inl, inr, Bool, true, false, Option, some, Option-cases, List, [], ◌∷◌,
  ◌++◌, All, All-append, All-map, nat_eq,
}
use ai_account_payable_invoi.Text.{Text}
use ai_account_payable_invoi.Domain.State.{status_eq}
use ai_account_payable_invoi.Domain.Export.{Bytes}
use ai_account_payable_invoi.Models.{Invoice, Validation, Tables, Reason, find_invoice}
use ai_account_payable_invoi.Services.Outcome.{Result, ok, Result-cases}
use ai_account_payable_invoi.Services.Session.Frame.{
  on_invoice-eq-ok, find_invoice-id, find_invoice-All,
}
use ai_account_payable_invoi.Services.Lifecycle.History.{moved}
use ai_account_payable_invoi.Services.Returns.{Takes, matching_stage-Returns, checked_stage-Returns}
use ai_account_payable_invoi.Services.Extraction.{run_extraction}
use ai_account_payable_invoi.Services.Matching.{run_matching}
use ai_account_payable_invoi.Services.Validation.{run_validation, validation_stage, checked_stage}
use ai_account_payable_invoi.Services.Validation.Overflow.{checked_stage-eq-ok}
use ai_account_payable_invoi.Services.Approval.{run_approval, record_human_decision, human_stage}
use ai_account_payable_invoi.Services.Approval.Human.{verdict, human_stage_iff}
use ai_account_payable_invoi.Services.Export.{run_export}
use ai_account_payable_invoi.Services.Ingestion.{new_invoice}
use ai_account_payable_invoi.Workers.{
  Task, to_extract, to_match, to_validate, to_approve, to_export, System, Surroundings,
  session_scope, extract_invoice, match_invoice, validate_invoice, approve_invoice, export_invoice,
  run_task, approve_and_export, reject, decide, upload,
}
use ai_account_payable_invoi.Workers.Staged.{IsSound}
use ai_account_payable_invoi.Workers.Keeps.{
  extraction_stage-Keeps, matching_stage-Keeps, validation_stage-Keeps, approval_stage-Keeps,
  human_stage-Keeps, export_stage-Keeps,
}
use ai_account_payable_invoi.Workers.Consistent.{IsConsistent, HasUniqueIds}
use ai_account_payable_invoi.Workers.Reachable.{
  IsDependable, Step, uploads, delivers, decides, restocks, repeats, loses, Reaches, Reaches-keeps,
  empty_system, upload-cases, Step-IsConsistent,
}
use ai_account_payable_invoi.Workers.Guarantees.{
  approval_stage_sound-Returns, export_stage_sound-Returns,
}
use ai_account_payable_invoi.Workers.Handles.{
  waits_at, extraction_stage-Handles, matching_stage-Handles, validation_stage-Handles,
  approval_stage-Handles, export_stage-Handles,
}
use ai_account_payable_invoi.Workers.Pending.{AllWait, settled-AllWait, replaced, missed}
use ai_account_payable_invoi.Workers.Queue.{
  next_task, Queued, Waits, WaitsBut, Queued-front, Queued-back, Queued-taken, Queued-repeat,
  next_task_not_extract, same_task, others_and-All,
}

nothing_sent : (ts : List Task) (xs : List Invoice) → All (Waits (ts ++ [])) xs → All (Waits ts) xs
nothing_sent ts xs = subst (λ l. All (Waits l) xs) (append-nil ts)

more_sent :
    (ts sent : List Task) (xs : List Invoice) → All (Waits ts) xs → All (Waits (ts ++ sent)) xs
more_sent ts sent = All-map (λ u h t calls. Queued-front t ts sent (h t calls))

module _ {Json : Type 0} (env : Surroundings Json) (s : System)
    (consistent : IsConsistent s.tables.invoices) where
  found_sound : (id : ℕ) (v : Invoice) → find_invoice id s.tables.invoices ≡ some v → IsSound v
  found_sound id v q = find_invoice-All IsSound id s.tables.invoices v q consistent.sound

  export_invoice-AllWait :
      (id : ℕ)
      → Takes env.signer
      → All (WaitsBut (to_export id) s.tasks) s.tables.invoices
      → AllWait (export_invoice env id s)
  unfolding export_invoice run_export
  export_invoice-AllWait id takes h = elim (Option-cases (find_invoice id s.tables.invoices)) [
    | inl q ↦
        let all = missed s.tasks [] (to_export id) s.tables.invoices q h in
        rw (export_invoice, run_export, q) (nothing_sent s.tasks _ all)
    | inr (v, q) ↦
        let ((row, w, objects), e) =
          export_stage_sound-Returns env s v takes (found_sound id v q) in
        let keeps = export_stage-Keeps env.signer s.tables s.objects objects v w row e in
        let handles =
          export_stage-Handles id v w (find_invoice-id id s.tables.invoices v q) env.signer s.tables
            s.objects objects row e in
        let all =
          replaced s.tasks [] (to_export id) v w s.tables.invoices q keeps.extends.same_id
            consistent.ids handles h in
        rw (export_invoice, run_export, q, e) (nothing_sent s.tasks _ all)
  ]

  run_task-AllWait :
      (t : Task)
      → IsDependable env
      → All (WaitsBut t s.tasks) s.tables.invoices
      → AllWait (run_task env t s)
  unfolding run_task extract_invoice match_invoice validate_invoice approve_invoice run_extraction
      run_matching run_validation run_approval
  run_task-AllWait (to_extract id) dependable =
      settled-AllWait _ _ _ (to_extract id) s refl consistent.ids
        (extraction_stage-Keeps env.runtime s.objects env.llm)
        (λ v w is. extraction_stage-Handles id v w is env.runtime s.objects env.llm)
        (inl (λ u. next_task_not_extract u.status u.id id))
  run_task-AllWait (to_match id) dependable =
      settled-AllWait _ _ _ (to_match id) s refl consistent.ids
        (matching_stage-Keeps env.runtime.unicode env.ratio s.tables)
        (λ v w is. matching_stage-Handles id v w is env.runtime.unicode env.ratio s.tables)
        (inr (λ v q. matching_stage-Returns env.runtime.unicode env.ratio s.tables v))
  run_task-AllWait (to_validate id) dependable =
      settled-AllWait _ _ _ (to_validate id) s refl consistent.ids
        (λ v w row e. validation_stage-Keeps env.runtime.unicode s.tables v w row (exact v w row e))
        (λ v w is row e.
          validation_stage-Handles id v w is env.runtime.unicode s.tables row (exact v w row e))
        (inr (λ v q.
          checked_stage-Returns env.runtime.unicode s.tables env.overflows v dependable.in_range))
    where
      exact :
          (v w : Invoice) (row : Option Validation)
          → checked_stage env.runtime.unicode env.overflows s.tables v ≡ ok (row, w)
          → validation_stage env.runtime.unicode s.tables v ≡ ok (row, w)
      exact = checked_stage-eq-ok env.runtime.unicode env.overflows s.tables
  run_task-AllWait (to_approve id) dependable =
      settled-AllWait _ _ _ (to_approve id) s refl consistent.ids approval_stage-Keeps
        (λ v w is. approval_stage-Handles id v w is)
        (inr (λ v q. approval_stage_sound-Returns v (found_sound id v q)))
  run_task-AllWait (to_export id) dependable = export_invoice-AllWait id dependable.takes

-- A person's approval sends the export, and a rejection calls for nothing.
abbrev follows : Bool → ℕ → List Task
follows true id = to_export id ∷ []
follows false id = []

module _ (approve : Bool) (actor : Text) (reason : Option Reason) (id : ℕ) where
  human_stage-Waits :
      (v w : Invoice) (done : Unit {0})
      → v.id ≡ id
      → human_stage approve actor reason v ≡ ok (done, w)
      → Waits (follows approve id) w
  human_stage-Waits v w done is e =
      let (_, same) = (human_stage_iff approve actor reason v w).0 e in
      subst (Waits (follows approve id)) same (
        waits_at (moved v (verdict approve) actor reason) (verdict approve) id _ refl is
          (calls approve))
    where
      calls :
          (approve : Bool) (t : Task)
          → next_task (verdict approve) id ≡ some t
          → Queued t (follows approve id)
      calls true t q = inl (same_task q)
      calls false t q = cc

  decided-Waits :
      (tables changed : Tables) (ts : List Task) (done : Unit {0})
      → record_human_decision approve actor reason id tables ≡ ok (done, changed)
      → HasUniqueIds tables.invoices
      → All (Waits ts) tables.invoices
      → All (Waits (ts ++ follows approve id)) changed.invoices
  unfolding record_human_decision
  decided-Waits tables changed ts done e ids h =
      let stage : Invoice → Result (Unit {0} × Invoice) = human_stage approve actor reason in
      let (v, w, found, ran, same) = on_invoice-eq-ok stage id tables changed done e in
      let is = find_invoice-id id tables.invoices v found in
      let kept = (human_stage-Keeps approve actor reason v w done ran).extends.same_id ∙ is in
      subst (λ (x : Tables). All (Waits (ts ++ follows approve id)) x.invoices) same
        (others_and-All (Waits ts) (Waits (ts ++ follows approve id)) id
          (λ u _ waits t calls. Queued-front t ts _ (waits t calls)) w tables.invoices kept ids
          (λ t calls. Queued-back t ts _ (human_stage-Waits v w done is ran t calls)) h)

decide-AllWait :
    (approve : Bool) (actor : Text) (reason : Option Reason) (id : ℕ) (s : System)
    → HasUniqueIds s.tables.invoices
    → AllWait s
    → AllWait (decide approve actor reason id s).1
unfolding decide approve_and_export reject session_scope
decide-AllWait true actor reason id s ids h =
    elim (Result-cases (record_human_decision true actor reason id s.tables)) [
      | inl (why, e) ↦
          rw (decide, approve_and_export, session_scope, e)
            (more_sent s.tasks [] s.tables.invoices h)
      | inr ((done, changed), e) ↦
          rw (decide, approve_and_export, session_scope, e)
            (decided-Waits true actor reason id s.tables changed s.tasks done e ids h)
    ]
decide-AllWait false actor reason id s ids h =
    elim (Result-cases (record_human_decision false actor reason id s.tables)) [
      | inl (why, e) ↦ rw (decide, reject, session_scope, e) h
      | inr ((done, changed), e) ↦
          rw (decide, reject, session_scope, e)
            (nothing_sent s.tasks _
              (decided-Waits false actor reason id s.tables changed s.tasks done e ids h))
    ]

upload-AllWait :
    (sha256 : Bytes → Text) (id : ℕ) (bytes : Bytes) (filename : Text) (content_type : String)
    (s : System)
    → AllWait s
    → AllWait (upload sha256 id bytes filename content_type s).1
unfolding new_invoice
upload-AllWait sha256 id bytes filename content_type s h =
    elim (upload-cases sha256 id bytes filename content_type s) [
      | inl same ↦ subst AllWait (sym same) h
      | inr (added, sent) ↦
          rw (added, sent)
            (All-append (Waits (s.tasks ++ (to_extract id ∷ []))) s.tables.invoices _
              (more_sent s.tasks (to_extract id ∷ []) s.tables.invoices h) ((λ t calls. cc), tt))
    ]

module _ {Json : Type 0} {sha256 : Bytes → Text} where
  Step-AllWait :
      (s t : System)
      → Step Json sha256 false s t
      → IsConsistent s.tables.invoices × AllWait s
      → IsConsistent t.tables.invoices × AllWait t
  Step-AllWait s t step (c, h) = (Step-IsConsistent s t step c, by_step step)
    where
      by_step : Step Json sha256 false s t → AllWait t
      by_step (uploads id bytes filename content_type fresh e) =
          subst AllWait e (upload-AllWait sha256 id bytes filename content_type s h)
      by_step (delivers env earlier rest task (inl lost) waits e) = cc
      by_step (delivers env earlier rest task (inr dependable) waits e) =
          let between : System = record s { tasks = earlier ++ rest } in
          let but : All (WaitsBut task (earlier ++ rest)) s.tables.invoices =
            All-map
              (λ u w t calls. Queued-taken t task earlier rest (subst (Queued t) waits (w t calls)))
              s.tables.invoices h in
          subst AllWait e (run_task-AllWait env between c task dependable but)
      by_step (decides approve actor reason id e) =
          subst AllWait e (decide-AllWait approve actor reason id s c.ids h)
      by_step (restocks vendors orders _ _ e) = subst AllWait e h
      by_step (repeats earlier rest task waits e) = subst AllWait e (
          All-map
            (λ u w t calls. Queued-repeat t task earlier rest (subst (Queued t) waits (w t calls)))
            s.tables.invoices h)
      by_step (loses earlier rest task lost waits e) = cc

  -- From the empty system, and as long as no message is lost, the storage takes every artifact and
  -- no rule's arithmetic overflows, these steps lead only to systems in which every EXTRACTED,
  -- VALIDATING, VALIDATED, AUTO_APPROVED or APPROVED invoice has the task that its status calls for
  -- in the queue.
  pub reachable-AllWait : (s : System) → Reaches Json sha256 false empty_system s → AllWait s
  reachable-AllWait s path =
      (Reaches-keeps (λ (x : System). IsConsistent x.tables.invoices × AllWait x) Step-AllWait
        empty_system s path (record { sound = tt; ids = tt; digests = tt }, tt)).1
