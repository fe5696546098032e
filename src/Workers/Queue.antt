-- ===== src/Workers/Queue.antt =====
-- The task that an invoice's status calls for, and whether it waits in the queue.
use ai_account_payable_invoi.Prelude.{
  ℕ, ◌≡◌, ◌≢◌, sym, ap, ◌∙◌, ◌⊎◌, inl, inr, false, Bool-cases, Option, none, some, List, [], ◌∷◌,
  ◌++◌, All, ◌==◌, nat_eq, nat_beq_iff,
}
use ai_account_payable_invoi.Domain.State.{
  InvoiceStatus, received, extracted, validating, validated, auto_approved, approved,
}
use ai_account_payable_invoi.Models.{Invoice, find_invoice, store_invoice}
use ai_account_payable_invoi.Workers.{
  Task, to_extract, to_match, to_validate, to_approve, to_export,
}
use ai_account_payable_invoi.Workers.Consistent.{HasUniqueIds}

abbrev pub next_task : InvoiceStatus → ℕ → Option Task
next_task extracted id = some (to_match id)
next_task validating id = some (to_validate id)
next_task validated id = some (to_approve id)
next_task auto_approved id = some (to_export id)
next_task approved id = some (to_export id)
next_task s id = none

abbrev pub Queued : Task → List Task → Type 0
Queued t [] = ⊥
Queued t (x ∷ xs) = (x ≡ t) ⊎ Queued t xs

-- What the status calls for waits.
abbrev pub Waits : List Task → Invoice → Type 0
Waits ts v = (t : Task) → next_task v.status v.id ≡ some t → Queued t ts

-- Or it is the one task that was taken from the queue.
abbrev pub WaitsBut : Task → List Task → Invoice → Type 0
WaitsBut taken ts v = (t : Task) → next_task v.status v.id ≡ some t → (taken ≡ t) ⊎ Queued t ts

pub Queued-front : (t : Task) (xs ys : List Task) → Queued t xs → Queued t (xs ++ ys)
Queued-front t [] ys h = absurd h
Queued-front t (x ∷ xs) ys (inl e) = inl e
Queued-front t (x ∷ xs) ys (inr h) = inr (Queued-front t xs ys h)

pub Queued-back : (t : Task) (xs ys : List Task) → Queued t ys → Queued t (xs ++ ys)
Queued-back t [] ys h = h
Queued-back t (x ∷ xs) ys h = inr (Queued-back t xs ys h)

pub Queued-taken :
    (t taken : Task) (xs ys : List Task)
    → Queued t (xs ++ (taken ∷ ys))
    → (taken ≡ t) ⊎ Queued t (xs ++ ys)
Queued-taken t taken [] ys h = h
Queued-taken t taken (x ∷ xs) ys (inl e) = inr (inl e)
Queued-taken t taken (x ∷ xs) ys (inr h) = elim (Queued-taken t taken xs ys h) [
  | inl e ↦ inl e
  | inr k ↦ inr (inr k)
]

pub Queued-repeat :
    (t again : Task) (xs ys : List Task)
    → Queued t (xs ++ (again ∷ ys))
    → Queued t (xs ++ (again ∷ again ∷ ys))
Queued-repeat t again [] ys h = inr h
Queued-repeat t again (x ∷ xs) ys (inl e) = inl e
Queued-repeat t again (x ∷ xs) ys (inr h) = inr (Queued-repeat t again xs ys h)

pub same_task : {a b : Task} → some a ≡ some b → a ≡ b
same_task h = cc

-- The task that a status calls for names the invoice.
abbrev pub invoice_of : Task → ℕ
invoice_of (to_extract id) = id
invoice_of (to_match id) = id
invoice_of (to_validate id) = id
invoice_of (to_approve id) = id
invoice_of (to_export id) = id

pub next_task-invoice_of :
    (s : InvoiceStatus) (id : ℕ) (t : Task) → next_task s id ≡ some t → invoice_of t ≡ id
next_task-invoice_of extracted id t h = sym (ap invoice_of (same_task h))
next_task-invoice_of validating id t h = sym (ap invoice_of (same_task h))
next_task-invoice_of validated id t h = sym (ap invoice_of (same_task h))
next_task-invoice_of auto_approved id t h = sym (ap invoice_of (same_task h))
next_task-invoice_of approved id t h = sym (ap invoice_of (same_task h))
next_task-invoice_of s id t h = cc

-- No status calls for an extraction.
pub next_task_not_extract : (s : InvoiceStatus) (i id : ℕ) → next_task s i ≢ some (to_extract id)
next_task_not_extract received i id h = cc
next_task_not_extract s i id h = cc

module _ {κ μ} (P : Invoice → Type κ) (Q : Invoice → Type μ) (id : ℕ)
    (others : (u : Invoice) → (u.id == id) ≡ false → P u → Q u) where
  pub others-All : (xs : List Invoice) → find_invoice id xs ≡ none → All P xs → All Q xs
  unfolding find_invoice
  others-All [] n h = tt
  others-All (x ∷ xs) n h = elim (Bool-cases (x.id == id)) [
    | inl y ↦ cc (rw y at n)
    | inr m ↦ (others x m h.0, others-All xs (rw m at n) h.1)
  ]

  pub others_and-All :
      (w : Invoice) (xs : List Invoice)
      → w.id ≡ id
      → HasUniqueIds xs
      → Q w
      → All P xs
      → All Q (store_invoice w xs)
  unfolding store_invoice
  others_and-All w [] e u q h = tt
  others_and-All w (x ∷ xs) e u q h = elim (Bool-cases (x.id == w.id)) [
    | inl y ↦
        let same : id ≡ x.id = sym (((nat_beq_iff x.id w.id).0 y) ∙ e) in
        rw y (q, others-All xs (ap (λ i. find_invoice i xs) same ∙ u.0) h.1)
    | inr n ↦
        let other : (x.id == id) ≡ false = ap (λ i. x.id == i) (sym e) ∙ n in
        rw n (others x other h.0, others_and-All w xs e u.1 q h.1)
  ]
