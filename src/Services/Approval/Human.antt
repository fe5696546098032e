-- ===== src/Services/Approval/Human.antt =====
-- What a reviewer's decision does to an invoice, src/invoice_ops/services/approval.py.
use ai_account_payable_invoi.Prelude.{
  ◌≡◌, refl, ◌↔◌, Bool, true, false, Option, if◌then◌else◌, arith,
}
use ai_account_payable_invoi.Text.{Text}
use ai_account_payable_invoi.Domain.State.{
  InvoiceStatus, received, needs_review, approved, rejected, can_transition,
}
use ai_account_payable_invoi.Models.{Invoice, Reason}
use ai_account_payable_invoi.Services.Outcome.{ok}
use ai_account_payable_invoi.Services.Lifecycle.History.{advance_iff, moved, after_move}
use ai_account_payable_invoi.Services.Approval.{human_stage}

-- The status that a reviewer's decision leads to.
abbrev pub verdict : Bool → InvoiceStatus
verdict approve = if approve then approved else rejected

pub verdict_from :
    (approve : Bool) (s : InvoiceStatus)
    → (can_transition s (verdict approve) ≡ true) ↔ (s ≡ needs_review)
unfolding can_transition
verdict_from true received = (λ e. cc, λ e. cc)
verdict_from true s = (λ e. ground arith, λ e. ground arith)
verdict_from false s = (λ e. ground arith, λ e. ground arith)

-- A reviewer's decision is accepted exactly on an invoice that waits for review. It then moves
-- to APPROVED or REJECTED, with a log entry of the reviewer and the reason, and changes nothing
-- else.
pub human_stage_iff :
    (approve : Bool) (actor : Text) (reason : Option Reason) (v w : Invoice)
    → (human_stage approve actor reason v ≡ ok (tt, w))
      ↔ ((v.status ≡ needs_review) × (moved v (verdict approve) actor reason ≡ w))
unfolding human_stage
human_stage_iff approve actor reason v w = (
  λ e.
      let (legal, _, same) = after_move v w (verdict approve) actor reason e in
      ((verdict_from approve v.status).0 legal, same),
  λ (at, same).
      let moves =
        (advance_iff v w (verdict approve) actor reason).1
          ((verdict_from approve v.status).1 at, same) in
      rw moves refl,
)
