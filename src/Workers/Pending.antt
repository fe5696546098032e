-- ===== src/Workers/Pending.antt =====
-- No work is forgotten: as long as the broker loses nothing, an invoice whose status calls for a
-- task has that task in the queue.
use mathlib.Core.Path.{subst}
use ai_account_payable_invoi.Prelude.{
  ◌≡◌, ◌≢◌, sym, ap, ◌∙◌, ◌⊎◌, inl, inr, false, Option, none, some, Option-cases, List, [], ◌++◌,
  All, All-map, ◌==◌, nat_eq, nat_beq_iff,
}
use ai_account_payable_invoi.Domain.State.{status_eq}
use ai_account_payable_invoi.Models.{Invoice, Tables, find_invoice, store_invoice}
use ai_account_payable_invoi.Services.Outcome.{Result, ok, raised, Result-cases, Error}
use ai_account_payable_invoi.Services.Session.{on_invoice}
use ai_account_payable_invoi.Services.Session.Frame.{
  on_invoice-eq-ok, find_invoice-id, find_invoice-All,
}
use ai_account_payable_invoi.Services.Returns.{Returns}
use ai_account_payable_invoi.Workers.{Task, System, chain, settled, session_scope}
use ai_account_payable_invoi.Workers.Keeps.{Keeps}
use ai_account_payable_invoi.Workers.Consistent.{HasUniqueIds}
use ai_account_payable_invoi.Workers.Guarantees.{on_invoice-Returns}
use ai_account_payable_invoi.Workers.Handles.{Handles}
use ai_account_payable_invoi.Workers.Queue.{
  next_task, Waits, WaitsBut, Queued-front, Queued-back, invoice_of, next_task-invoice_of,
  others-All, others_and-All,
}

-- Rows that no task concerns, when one was taken from the queue and others are sent.
module _ (ts sent : List Task) (taken : Task) where
  other :
      (u : Invoice)
      → (u.id == invoice_of taken) ≡ false
      → WaitsBut taken ts u
      → Waits (ts ++ sent) u
  other u n h t calls = elim (h t calls) [
    | inl e ↦
        let same : u.id ≡ invoice_of taken =
          sym (next_task-invoice_of u.status u.id t calls) ∙ ap invoice_of (sym e) in
        cc (n, (nat_beq_iff u.id (invoice_of taken)).1 same)
    | inr q ↦ Queued-front t ts sent q
  ]

  not_called :
      (u : Invoice)
      → next_task u.status u.id ≢ some taken
      → WaitsBut taken ts u
      → Waits (ts ++ sent) u
  not_called u n h t calls = elim (h t calls) [
    | inl e ↦ absurd (n (calls ∙ ap some (sym e)))
    | inr q ↦ Queued-front t ts sent q
  ]

  pub replaced :
      (v w : Invoice) (xs : List Invoice)
      → find_invoice (invoice_of taken) xs ≡ some v
      → w.id ≡ v.id
      → HasUniqueIds xs
      → Handles taken v w sent
      → All (WaitsBut taken ts) xs
      → All (Waits (ts ++ sent)) (store_invoice w xs)
  replaced v w xs found same ids handles h =
      let at_w : Waits (ts ++ sent) w = elim handles [
        | inl (untouched, n) ↦
            subst (Waits (ts ++ sent)) (sym untouched) (
              not_called v n (find_invoice-All (WaitsBut taken ts) (invoice_of taken) xs v found h))
        | inr now ↦ λ t calls. Queued-back t ts sent (now t calls)
      ] in
      others_and-All (WaitsBut taken ts) (Waits (ts ++ sent)) (invoice_of taken) other w xs
        (same ∙ find_invoice-id (invoice_of taken) xs v found) ids at_w h

  pub missed :
      (xs : List Invoice)
      → find_invoice (invoice_of taken) xs ≡ none
      → All (WaitsBut taken ts) xs
      → All (Waits (ts ++ sent)) xs
  missed = others-All (WaitsBut taken ts) (Waits (ts ++ sent)) (invoice_of taken) other

abbrev pub AllWait : System → Type 0
AllWait s = All (Waits s.tasks) s.tables.invoices

pub raised_not_ok {ℓ} : {A : Type ℓ} {r : Result A} {x : Error} → Returns r → r ≡ raised x → ⊥
raised_not_ok (a, p) q = cc

pub settled-AllWait {ℓ} :
    {A : Type ℓ} (body : Tables → Result (Option A × Tables))
    (stage : Invoice → Result (Option A × Invoice)) (next : A → List Task) (taken : Task)
    (s : System)
    → body s.tables ≡ on_invoice stage (invoice_of taken) s.tables
    → HasUniqueIds s.tables.invoices
    → ((v w : Invoice) (row : Option A) → stage v ≡ ok (row, w) → Keeps v w)
    → ((v w : Invoice)
        → v.id ≡ invoice_of taken
        → (row : Option A) → stage v ≡ ok (row, w)
        → Handles taken v w (chain next (ok row)))
    → ((u : Invoice) → next_task u.status u.id ≢ some taken)
      ⊎ ((v : Invoice)
          → find_invoice (invoice_of taken) s.tables.invoices ≡ some v
          → Returns (stage v))
    → All (WaitsBut taken s.tasks) s.tables.invoices
    → AllWait (settled s next (session_scope body s.tables))
unfolding session_scope
settled-AllWait body stage next taken s is ids keeps handles raises h =
    elim (Result-cases (body s.tables)) [
      | inr ((row, changed), e) ↦
          let (v, w, found, ran, same) =
            on_invoice-eq-ok stage (invoice_of taken) s.tables changed row (sym is ∙ e) in
          let here : v.id ≡ invoice_of taken = find_invoice-id _ _ v found in
          let all : All (Waits (s.tasks ++ chain next (ok row)))
              (store_invoice w s.tables.invoices) =
            replaced s.tasks _ taken v w s.tables.invoices found (keeps v w row ran).extends.same_id
              ids (handles v w here row ran) h in
          rw (session_scope, e)
            (subst (λ (x : Tables). All (Waits (s.tasks ++ chain next (ok row))) x.invoices) same
              all)
      | inl (why, e) ↦
          rw (session_scope, e)
            (elim raises [
              | inl never ↦
                  All-map (λ u. not_called s.tasks [] taken u (never u)) s.tables.invoices h
              | inr returns ↦
                  elim (Option-cases (find_invoice (invoice_of taken) s.tables.invoices)) [
                    | inl q ↦ missed s.tasks [] taken s.tables.invoices q h
                    | inr (v, q) ↦ absurd (
                        raised_not_ok (on_invoice-Returns stage _ s.tables v q (returns v q))
                          (sym is ∙ e))
                  ]
            ])
    ]
