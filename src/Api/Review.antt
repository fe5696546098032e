-- ===== src/Api/Review.antt =====
-- The decisions of the review pages.
use ai_account_payable_invoi.Prelude.{
  ℕ, ◌≡◌, ◌↔◌, refl, sym, ap, ◌∙◌, inl, inr, Bool, true, Bool-cases, Option, none, some,
  Option-cases, ◌==◌, string_eq, if◌then◌else◌,
}
use ai_account_payable_invoi.Text.{Text, Unicode, strip}
use ai_account_payable_invoi.Domain.State.{InvoiceStatus, status_eq}
use ai_account_payable_invoi.Models.{Invoice, Reason, find_invoice}
use ai_account_payable_invoi.Services.Outcome.{illegal_transition}
use ai_account_payable_invoi.Services.Lifecycle.History.{moved}
use ai_account_payable_invoi.Services.Approval.Human.{verdict}
use ai_account_payable_invoi.Workers.{System}
use ai_account_payable_invoi.Api.{Response, responds, http_exception}
use ai_account_payable_invoi.Api.Bodies.{InvoiceOut, invoice_out, ReviewDecisionIn}
use ai_account_payable_invoi.Api.Invoices.{record_decision, given_reason}
use ai_account_payable_invoi.Api.Decisions.{decide_lem, record_decision_lem, recorded}
use ai_account_payable_invoi.Api.Views.{DetailPage, detail_page, ui_invoice_detail}
use ai_account_payable_invoi.Api.ReviewUi.{
  Location, to_queue, to_invoice, see_other, flash_error, flash_of, clean_actor, clean_reason,
  ui_decide,
}

-- Where a decision of the review page leads, and the system after it.
abbrev pub leads_to :
    Bool → Text → Option Reason → ℕ → System → Option Invoice → Response Location × System
leads_to approve actor reason id s none = (see_other (to_queue none), s)
leads_to approve actor reason id s (some v) =
    if v.status == InvoiceStatus.needs_review
    then (see_other (to_invoice id (some (flash_of approve))), recorded approve actor reason id v s)
    else (
      see_other
          (to_invoice id (some (flash_error (illegal_transition v.status (verdict approve))))),
      s,
    )

-- A decision form leads to the queue for a missing invoice, and back to the invoice with an error
-- for one that does not wait for review, and changes nothing; otherwise the decision is recorded
-- with the stripped actor and reason, or their defaults, and the invoice's page says so.
pub ui_decide_lem :
    (u : Unicode) (approve : Bool) (id : ℕ) (actor reason : Text) (s : System)
    → ui_decide u approve id actor reason s
      ≡ leads_to approve
          (clean_actor (strip u actor))
          (clean_reason (strip u reason))
          id
          s
          (find_invoice id s.tables.invoices)
unfolding ui_decide
ui_decide_lem u approve id actor reason s =
    let by =
      decide_lem (clean_actor (strip u actor)) (clean_reason (strip u reason)) id s approve in
    elim (Option-cases (find_invoice id s.tables.invoices)) [
      | inl q ↦ rw (ui_decide, by, q) refl
      | inr (v, q) ↦ elim (Bool-cases (v.status == InvoiceStatus.needs_review)) [
        | inl y ↦ rw (ui_decide, by, q, y) refl
        | inr n ↦ rw (ui_decide, by, q, n) refl
      ]
    ]

-- The page of an invoice that is shown offers a decision exactly when the decision endpoints answer
-- 200.
pub can_decide_iff :
    (approve : Bool) (id : ℕ) (body : ReviewDecisionIn) (s : System) (page : DetailPage)
    → ui_invoice_detail id s.tables ≡ responds 200 page
    → (page.can_decide ≡ true) ↔ (
        (out : InvoiceOut) × (after : System) × (record_decision approve id body s
          ≡ (responds 200 out, after)))
unfolding ui_invoice_detail detail_page
can_decide_iff approve id body s page e = elim (Option-cases (find_invoice id s.tables.invoices)) [
  | inl q ↦ absurd (not_shown (rw (ui_invoice_detail, q) at e))
  | inr (v, q) ↦
      let same : page.can_decide ≡ (v.status == InvoiceStatus.needs_review) =
        ap (λ (p : DetailPage). p.can_decide) (sym (shown (rw (ui_invoice_detail, q) at e))) in
      let by = record_decision_lem approve id body s in
      elim (Bool-cases (v.status == InvoiceStatus.needs_review)) [
        | inl y ↦
            let reason = given_reason body.reason in
            let out = invoice_out (moved v (verdict approve) body.actor reason) in
            let took : record_decision approve id body s
                ≡ (responds 200 out, recorded approve body.actor reason id v s) =
              rw (by, q, y) refl in
            (λ _. (out, recorded approve body.actor reason id v s, took), λ _. same ∙ y)
        | inr n ↦
            let refused : record_decision approve id body s ≡ (http_exception 409, s) =
              rw (by, q, n) refl in
            (
              λ c. cc (c, same, n),
              λ (out, after, d).
                  absurd
                    (conflicts (ap (λ (p : Response InvoiceOut × System). p.0) (sym d ∙ refused))),
            )
      ]
]
  where
    not_shown : http_exception 404 ≡ responds 200 page → ⊥
    not_shown h = cc

    shown : {a b : DetailPage} → responds 200 a ≡ responds 200 b → a ≡ b
    shown h = cc

    conflicts : {out : InvoiceOut} → responds 200 out ≡ http_exception 409 → ⊥
    conflicts h = cc
