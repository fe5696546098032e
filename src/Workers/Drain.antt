-- ===== src/Workers/Drain.antt =====
-- The worker's loop, which takes the messages of the queue one after the other: it comes to an end,
-- and then no invoice is under way.
use mathlib.Core.Path.{subst}
use ai_account_payable_invoi.Prelude.{
  ℕ, zero, suc, ◌+◌, ◌*◌, ◌≤◌, ◌≡◌, ◌≢◌, ap, refl, Option, none, Bool, arith, inl, inr, some, true,
  false, List, [], ◌∷◌, ◌++◌, length, All, if◌then◌else◌, ◌==◌,
}
use ai_account_payable_invoi.Domain.State.{
  InvoiceStatus, received, extracting, extracted, matching, validating, validated, needs_review,
  auto_approved, approved, rejected, exporting, exported, failed, status_eq,
}
use ai_account_payable_invoi.Domain.Export.{Bytes}
use ai_account_payable_invoi.Text.{Text}
use ai_account_payable_invoi.Models.{Invoice, Tables, Extraction, InvoiceMatch, Validation}
use ai_account_payable_invoi.Domain.Approval.{ApprovalDecision}
use ai_account_payable_invoi.Services.Outcome.{Result, ok, raised, Result-cases}
use ai_account_payable_invoi.Services.Export.{run_export}
use ai_account_payable_invoi.Workers.{
  Task, to_extract, to_match, to_validate, to_approve, to_export, System, Surroundings, settled,
  run_task, extract_invoice, match_invoice, validate_invoice, approve_invoice, export_invoice,
}
use ai_account_payable_invoi.Workers.Staged.{IsSound, IsSound-Rows}
use ai_account_payable_invoi.Workers.Queue.{Waits, next_task}
use ai_account_payable_invoi.Workers.Reachable.{
  IsDependable, Reaches, later, delivers, empty_system, reachable-IsConsistent,
}
use ai_account_payable_invoi.Workers.Progress.{reachable-AllWait}

-- How many tasks can follow from a message, itself included.
abbrev weight : Task → ℕ
weight (to_extract id) = 5
weight (to_match id) = 4
weight (to_validate id) = 3
weight (to_approve id) = 2
weight (to_export id) = 1

abbrev pub backlog : List Task → ℕ
backlog [] = 0
backlog (t ∷ ts) = weight t + backlog ts

backlog-append : (ts us : List Task) → backlog (ts ++ us) ≡ backlog ts + backlog us
backlog-append [] us = omega arith
backlog-append (t ∷ ts) us = omega (arith, backlog-append ts us)

backlog-le : (ts : List Task) → backlog ts ≤ 5 * length ts
backlog-le [] = omega arith
backlog-le (to_extract id ∷ ts) = omega (arith, backlog-le ts)
backlog-le (to_match id ∷ ts) = omega (arith, backlog-le ts)
backlog-le (to_validate id ∷ ts) = omega (arith, backlog-le ts)
backlog-le (to_approve id ∷ ts) = omega (arith, backlog-le ts)
backlog-le (to_export id ∷ ts) = omega (arith, backlog-le ts)

-- A session adds what its row sends, or nothing.
settled-backlog {ℓ} :
    {A : Type ℓ} (s : System) (next : A → List Task) (k : ℕ) (outcome : Result (Option A) × Tables)
    → ((row : A) → backlog (next row) ≤ k)
    → backlog (settled s next outcome).tasks ≤ backlog s.tasks + k
settled-backlog s next k (ok none, tables) h = omega (arith, backlog-append s.tasks [])
settled-backlog s next k (ok (some row), tables) h =
    omega (arith, backlog-append s.tasks (next row), h row)
settled-backlog s next k (raised why, tables) h = omega (arith, backlog-append s.tasks [])

sent_or_not : (b : Bool) (t : Task) → backlog (if b then t ∷ [] else []) ≤ weight t
sent_or_not true t = omega arith
sent_or_not false t = omega arith

module _ {Json : Type 0} (env : Surroundings Json) where
  export_invoice-tasks : (id : ℕ) (s : System) → (export_invoice env id s).tasks ≡ s.tasks
  unfolding export_invoice
  export_invoice-tasks id s = elim (Result-cases (run_export env.signer id s.tables s.objects)) [
    | inl (why, e) ↦ rw (export_invoice, e) refl
    | inr ((row, tables, objects), e) ↦ rw (export_invoice, e) refl
  ]

  run_task-backlog :
      (t : Task) (s : System) → backlog (run_task env t s).tasks + 1 ≤ weight t + backlog s.tasks
  unfolding run_task extract_invoice match_invoice validate_invoice approve_invoice
  run_task-backlog (to_extract id) s =
      omega (arith, settled-backlog s _ 4 _ (λ (x : Extraction). sent_or_not x.ok (to_match id)))
  run_task-backlog (to_match id) s =
      omega (
        arith,
        settled-backlog s (λ (m : InvoiceMatch). to_validate id ∷ []) 3 _ (λ m. omega arith),
      )
  run_task-backlog (to_validate id) s =
      omega
        (arith, settled-backlog s (λ (v : Validation). to_approve id ∷ []) 2 _ (λ v. omega arith))
  run_task-backlog (to_approve id) s = omega (
    arith,
    settled-backlog s
        (λ (d : ApprovalDecision). if d.outcome == auto_approved then to_export id ∷ [] else []) 1 _
        (λ d. sent_or_not (d.outcome == auto_approved) (to_export id)),
  )
  run_task-backlog (to_export id) s = omega (arith, ap backlog (export_invoice-tasks id s))

-- A loop that handles the first message `rounds` times, unless none is left. What surrounds it may
-- change from one task to the next.
module _ {Json : Type 0} (env : ℕ → Surroundings Json) where
  abbrev on_first : (Task → System → System) → System → List Task → System
  on_first handle s [] = s
  on_first handle s (t ∷ ts) = handle t (record s { tasks = ts })

  unfoldable pub deliver_all : ℕ → System → System
  deliver_all zero s = s
  deliver_all (suc rounds) s =
      on_first (λ t rest. deliver_all rounds (run_task (env rounds) t rest)) s s.tasks

  deliver_all-tasks :
      (rounds : ℕ) (s : System) → backlog s.tasks ≤ rounds → (deliver_all rounds s).tasks ≡ []
  unfolding deliver_all
  deliver_all-tasks zero s h = none_left s.tasks h
    where
      none_left : (ts : List Task) → backlog ts ≤ 0 → ts ≡ []
      none_left [] k = refl
      none_left (to_extract id ∷ ts) k = absurd (omega (arith, k))
      none_left (to_match id ∷ ts) k = absurd (omega (arith, k))
      none_left (to_validate id ∷ ts) k = absurd (omega (arith, k))
      none_left (to_approve id ∷ ts) k = absurd (omega (arith, k))
      none_left (to_export id ∷ ts) k = absurd (omega (arith, k))
  deliver_all-tasks (suc rounds) s h = from_first (deliver_all-tasks rounds) s.tasks refl
    where
      from_first :
          ((u : System) → backlog u.tasks ≤ rounds → (deliver_all rounds u).tasks ≡ [])
          → (ts : List Task) → s.tasks ≡ ts
          → (on_first (λ t rest. deliver_all rounds (run_task (env rounds) t rest)) s ts).tasks ≡ []
      from_first ih [] e = e
      from_first ih (t ∷ ts) e =
          ih _
            (omega (arith, ap backlog e, run_task-backlog (env rounds) t (record s { tasks = ts })))

  deliver_all-Reaches :
      (sha256 : Bytes → Text) (dependable : (n : ℕ) → IsDependable (env n)) (rounds : ℕ)
      (start s : System)
      → Reaches Json sha256 false start s
      → Reaches Json sha256 false start (deliver_all rounds s)
  unfolding deliver_all
  deliver_all-Reaches sha256 dependable zero start s path = path
  deliver_all-Reaches sha256 dependable (suc rounds) start s path =
      from_first (deliver_all-Reaches sha256 dependable rounds start) s.tasks refl
    where
      from_first :
          ((u : System)
            → Reaches Json sha256 false start u
            → Reaches Json sha256 false start (deliver_all rounds u))
          → (ts : List Task) → s.tasks ≡ ts
          → Reaches Json sha256 false start
              (on_first (λ t rest. deliver_all rounds (run_task (env rounds) t rest)) s ts)
      from_first ih [] e = path
      from_first ih (t ∷ ts) e =
          ih _ (later s _ path (delivers (env rounds) [] ts t (inr (dependable rounds)) e refl))

-- No task is at work on the invoice, and none is to come: a person decides it, it is done, or its
-- extraction raised.
abbrev pub IsAtRest : InvoiceStatus → Type 0
IsAtRest received = Unit
IsAtRest needs_review = Unit
IsAtRest exported = Unit
IsAtRest rejected = Unit
IsAtRest failed = Unit
IsAtRest s = ⊥

at_rest :
    (v : Invoice) (s : InvoiceStatus)
    → v.status ≡ s
    → IsSound v
    → ((t : Task) → next_task s v.id ≢ some t)
    → IsAtRest s
at_rest v received e h none_due = tt
at_rest v extracting e h none_due = IsSound-Rows h e
at_rest v extracted e h none_due = none_due _ refl
at_rest v matching e h none_due = IsSound-Rows h e
at_rest v validating e h none_due = none_due _ refl
at_rest v validated e h none_due = none_due _ refl
at_rest v needs_review e h none_due = tt
at_rest v auto_approved e h none_due = none_due _ refl
at_rest v approved e h none_due = none_due _ refl
at_rest v rejected e h none_due = tt
at_rest v exporting e h none_due = IsSound-Rows h e
at_rest v exported e h none_due = tt
at_rest v failed e h none_due = tt

All-IsAtRest :
    (xs : List Invoice) → All IsSound xs → All (Waits []) xs → All (λ v. IsAtRest v.status) xs
All-IsAtRest [] h w = tt
All-IsAtRest (v ∷ xs) h w = (at_rest v v.status refl h.0 (λ t e. w.0 t e), All-IsAtRest xs h.1 w.1)

-- From any system that the steps lead to from the empty one without a loss or a raising storage or
-- overflow, a worker that handles the messages one after the other, where the storage takes every
-- artifact and no rule's arithmetic overflows, empties the queue within five rounds a message; then
-- every invoice waits for a reviewer, is EXPORTED, REJECTED or FAILED, or is still RECEIVED.
pub deliver_all-IsAtRest :
    {Json : Type 0} (sha256 : Bytes → Text) (s : System)
    → Reaches Json sha256 false empty_system s
    → (env : ℕ → Surroundings Json) (rounds : ℕ) → ((n : ℕ) → IsDependable (env n))
    → 5 * length s.tasks ≤ rounds
    → let after = deliver_all env rounds s in
      (after.tasks ≡ []) × All (λ v. IsAtRest v.status) after.tables.invoices
deliver_all-IsAtRest sha256 s path env rounds dependable enough =
    let path' = deliver_all-Reaches env sha256 dependable rounds empty_system s path in
    let after = deliver_all env rounds s in
    let empty : after.tasks ≡ [] =
      deliver_all-tasks env rounds s (omega (arith, backlog-le s.tasks)) in
    (
      empty,
      All-IsAtRest after.tables.invoices (reachable-IsConsistent after path').sound (
          subst (λ ts. All (Waits ts) after.tables.invoices) empty (reachable-AllWait after path')),
    )
