-- ===== src/Services/Lifecycle.antt =====
-- The one place where a status changes, src/invoice_ops/services/lifecycle.py.
pub mod History
use ai_account_payable_invoi.Prelude.{Option, List, [], ◌∷◌, ◌++◌, if◌then◌else◌}
use ai_account_payable_invoi.Text.{Text, text}
use ai_account_payable_invoi.Domain.State.{InvoiceStatus, can_transition}
use ai_account_payable_invoi.Models.{Invoice, AuditLog, Reason}
use ai_account_payable_invoi.Services.Outcome.{Result, ok, raised, illegal_transition}

-- The default actor.
abbrev pub system : Text
system = text "system"

unfoldable pub advance : Invoice → InvoiceStatus → Text → Option Reason → Result Invoice
advance invoice target actor reason =
    let entry : AuditLog = record {
      from_status = invoice.status;
      to_status = target;
      actor = actor;
      reason = reason;
    } in
    if can_transition invoice.status target
    then ok (record invoice { status = target; audit_log = invoice.audit_log ++ (entry ∷ []) })
    else raised (illegal_transition invoice.status target)
