-- ===== src/Api/Decisions.antt =====
-- The decisions: what the handlers answer, and when.
use mathlib.Core.List.{append-nil}
use ai_account_payable_invoi.Prelude.{
  ℕ, ◌≡◌, ◌≢◌, refl, sym, ap, inl, inr, Bool, true, false, Bool-cases, Option, none, some,
  Option-cases, List, [], ◌∷◌, ◌++◌, ◌==◌, nat_eq, if◌then◌else◌,
}
use ai_account_payable_invoi.Text.{Text}
use ai_account_payable_invoi.Domain.State.{needs_review, status_eq, can_transition}
use ai_account_payable_invoi.Models.{Invoice, Tables, Reason, find_invoice, store_invoice}
use ai_account_payable_invoi.Services.Outcome.{
  Result, ok, raised, Error, invoice_not_found, illegal_transition,
}
use ai_account_payable_invoi.Services.Lifecycle.{advance}
use ai_account_payable_invoi.Services.Lifecycle.History.{moved}
use ai_account_payable_invoi.Services.Session.{on_invoice}
use ai_account_payable_invoi.Services.Session.Frame.{find_invoice-id, find_invoice-store}
use ai_account_payable_invoi.Services.Approval.{human_stage, record_human_decision}
use ai_account_payable_invoi.Services.Approval.Human.{verdict, verdict_from, human_stage_iff}
use ai_account_payable_invoi.Workers.{
  System, Task, to_export, session_scope, approve_and_export, reject, decide,
}
use ai_account_payable_invoi.Api.{Response, responds, http_exception}
use ai_account_payable_invoi.Api.Bodies.{InvoiceOut, invoice_out, ReviewDecisionIn}
use ai_account_payable_invoi.Api.Invoices.{record_decision, decided_out, given_reason}

-- What an approval sends.
abbrev pub sends : Bool → ℕ → List Task
sends true id = to_export id ∷ []
sends false id = []

-- The system after a decision that was recorded.
abbrev pub recorded : Bool → Text → Option Reason → ℕ → Invoice → System → System
recorded approve actor reason id v s = record s {
  tables = record s.tables {
    invoices = store_invoice (moved v (verdict approve) actor reason) s.tables.invoices;
  };
  tasks = s.tasks ++ sends approve id;
}

module _ (approve : Bool) (actor : Text) (reason : Option Reason) (v : Invoice) where
  reviewed :
      v.status ≡ needs_review
      → human_stage approve actor reason v ≡ ok (tt, moved v (verdict approve) actor reason)
  reviewed at = (human_stage_iff approve actor reason v _).1 (at, refl)

  refused :
      v.status ≢ needs_review
      → human_stage approve actor reason v ≡ raised (illegal_transition v.status (verdict approve))
  unfolding human_stage advance
  refused n = elim (Bool-cases (can_transition v.status (verdict approve))) [
    | inl y ↦ absurd (n ((verdict_from approve v.status).0 y))
    | inr m ↦ rw m refl
  ]

-- What a decision is to do: nothing to a missing invoice or one that does not wait for review.
abbrev pub decision_on :
    Bool → Text → Option Reason → ℕ → System → Option Invoice → Result (Unit {0}) × System
decision_on approve actor reason id s none = (raised (invoice_not_found id), s)
decision_on approve actor reason id s (some v) =
    if v.status == needs_review
    then (ok tt, recorded approve actor reason id v s)
    else (raised (illegal_transition v.status (verdict approve)), s)

nothing_sent : (s : System) → record s { tasks = s.tasks ++ [] } ≡ s
nothing_sent s = ap (λ l. record s { tasks = l }) (append-nil s.tasks)

module _ (actor : Text) (reason : Option Reason) (id : ℕ) (s : System) where
  decide-raised :
      (approve : Bool) (why : Error)
      → record_human_decision approve actor reason id s.tables ≡ raised why
      → decide approve actor reason id s ≡ (raised why, s)
  unfolding decide approve_and_export reject session_scope
  decide-raised true why e =
      rw (decide, approve_and_export, session_scope, e) (ap (λ x. (raised why, x)) (nothing_sent s))
  decide-raised false why e = rw (decide, reject, session_scope, e) refl

  decide-ok :
      (approve : Bool) (changed : Tables)
      → record_human_decision approve actor reason id s.tables ≡ ok (tt, changed)
      → decide approve actor reason id s
        ≡ (ok tt, record s { tables = changed; tasks = s.tasks ++ sends approve id })
  unfolding decide approve_and_export reject session_scope
  decide-ok true changed e = rw (decide, approve_and_export, session_scope, e) refl
  decide-ok false changed e =
      rw (decide, reject, session_scope, e)
        (ap (λ l. (ok tt, record s { tables = changed; tasks = l })) (sym (append-nil s.tasks)))

  pub decide_lem :
      (approve : Bool)
      → decide approve actor reason id s
        ≡ decision_on approve actor reason id s (find_invoice id s.tables.invoices)
  unfolding record_human_decision on_invoice
  decide_lem approve = elim (Option-cases (find_invoice id s.tables.invoices)) [
    | inl q ↦ rw q (
        decide-raised approve (invoice_not_found id)
          (rw (record_human_decision, on_invoice, q) refl))
    | inr (v, q) ↦ elim (Bool-cases (v.status == needs_review)) [
      | inl y ↦
          let at = (status_eq.beq_iff v.status needs_review).0 y in
          rw (q, y)
            (decide-ok approve _
              (rw (record_human_decision, on_invoice, q, reviewed approve actor reason v at) refl))
      | inr n ↦
          rw (q, n)
            (decide-raised approve _ (
              rw
                (
                  record_human_decision,
                  on_invoice,
                  q,
                  refused approve actor reason v
                      (λ at. cc (n, (status_eq.beq_iff v.status needs_review).1 at)),
                )
                refl))
    ]
  ]

decided_out-found :
    (id : ℕ) (after : System) (w : Invoice)
    → find_invoice id after.tables.invoices ≡ some w
    → decided_out id (ok tt, after) ≡ (responds 200 (invoice_out w), after)
decided_out-found id after w e = rw (decided_out, e) refl

-- The answer to a decision, and the system after it.
abbrev pub answer_to :
    Bool → ReviewDecisionIn → ℕ → System → Option Invoice → Response InvoiceOut × System
answer_to approve body id s none = (http_exception 404, s)
answer_to approve body id s (some v) =
    if v.status == needs_review
    then (
      responds 200 (invoice_out (moved v (verdict approve) body.actor (given_reason body.reason))),
      recorded approve body.actor (given_reason body.reason) id v s,
    )
    else (http_exception 409, s)

-- A decision endpoint answers 404 on a missing invoice and 409 on one that does not wait for
-- review, and changes nothing; otherwise it answers 200 with the invoice as it was moved, stores
-- it, and sends the export if it was an approval.
pub record_decision_lem :
    (approve : Bool) (id : ℕ) (body : ReviewDecisionIn) (s : System)
    → record_decision approve id body s
      ≡ answer_to approve body id s (find_invoice id s.tables.invoices)
unfolding record_decision
record_decision_lem approve id body s =
    let by = decide_lem body.actor (given_reason body.reason) id s approve in
    elim (Option-cases (find_invoice id s.tables.invoices)) [
      | inl q ↦ rw (record_decision, by, q) refl
      | inr (v, q) ↦ elim (Bool-cases (v.status == needs_review)) [
        | inl y ↦
            let stored =
              find_invoice-store id v
                (moved v (verdict approve) body.actor (given_reason body.reason)) s.tables.invoices
                q (find_invoice-id id s.tables.invoices v q) in
            rw (record_decision, by, q, y) (decided_out-found id _ _ stored)
        | inr n ↦ rw (record_decision, by, q, n) refl
      ]
    ]
