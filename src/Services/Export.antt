-- ===== src/Services/Export.antt =====
-- The export stage, src/invoice_ops/services/export.py. The encoding, the signature, the way a
-- uuid is printed, the new uuid and the time are parameters.
pub mod Stage
use mathlib.Core.Bool.{◌||◌}
use Prim.Native.String.{String}
use ai_account_payable_invoi.Prelude.{
  ℕ, Bool, true, false, Option, none, some, List, [], ◌∷◌, ◌++◌, ◌==◌, if◌then◌else◌,
}
use ai_account_payable_invoi.Text.{Text, text}
use ai_account_payable_invoi.Config.{Settings}
use ai_account_payable_invoi.Domain.State.{
  InvoiceStatus, auto_approved, approved, exporting, exported, status_eq,
}
use ai_account_payable_invoi.Domain.Extraction.{ExtractedInvoice, ExtractionResult}
use ai_account_payable_invoi.Domain.Export.{Bytes, ExportPayload, contract_version, sign_payload}
use ai_account_payable_invoi.Models
use ai_account_payable_invoi.Models.{
  Invoice, InvoiceMatch, AuditLog, Vendor, PurchaseOrder, Tables, Reason, find_vendor, find_order,
  find_invoice, store_invoice,
}
use ai_account_payable_invoi.Services.Outcome.{
  Result, ok, raised, storage_error, ◌>>=◌, or_raise, invoice_not_found,
}
use ai_account_payable_invoi.Services.Lifecycle.{advance, system}
use ai_account_payable_invoi.Services.Session.{Objects, put_object}
use ai_account_payable_invoi.Services.Matching.{latest_match, extracted_result, give_up}

-- `_EXPORTABLE_STATUSES`
abbrev pub is_exportable : InvoiceStatus → Bool
is_exportable s = s == auto_approved || s == approved

-- `_approval_audit_entry`: the last entry that approves.
last_approval : Option AuditLog → List AuditLog → Option AuditLog
last_approval found [] = found
last_approval found (e ∷ es) =
    last_approval (if is_exportable e.to_status then some e else found) es

unfoldable pub approval_audit_entry : Invoice → Option AuditLog
unfolding last_approval
approval_audit_entry invoice = last_approval none invoice.audit_log

abbrev vendor_of : Tables → Option InvoiceMatch → Option Vendor
vendor_of tables none = none
vendor_of tables (some m) = elim m.vendor_id [ none ↦ none | some i ↦ find_vendor i tables.vendors ]

abbrev order_of : Tables → Option InvoiceMatch → Option PurchaseOrder
order_of tables none = none
order_of tables (some m) = elim m.po_id [
  | none ↦ none
  | some i ↦ find_order i tables.purchase_orders
]

abbrev pub field {ℓ κ} : {A : Type ℓ} {B : Type κ} → Option A → (A → Option B) → Option B
field none f = none
field (some a) f = f a

-- What the stage takes from its surroundings.
pub record Signer : Type 0 where
  pub encode : ExportPayload Reason → Bytes
  pub hmac_sha256 : Text → Bytes → Text
  pub show_uuid : ℕ → Text
  pub uuid4 : ℕ
  pub now : Text
  pub export_signing_secret : Text
  pub put_fault : Text → Bytes → Option Text

-- `get_storage().put_object(...)`, or what it raises.
abbrev pub put_artifact : Signer → Text → Bytes → Objects → Result Objects
put_artifact signer key bytes objects = elim (signer.put_fault key bytes) [
  | none ↦ ok (put_object key bytes objects)
  | some why ↦ raised (storage_error why)
]

unfoldable pub payload_for :
    Signer → Tables → Invoice → InvoiceStatus → ExtractedInvoice → ExportPayload Reason
payload_for signer tables invoice starting_status e =
    let m = latest_match invoice in
    let entry = approval_audit_entry invoice in
    record {
      contract_version = contract_version;
      invoice_id = invoice.id;
      status = starting_status;
      supplier_name = e.supplier_name;
      supplier_tax_id = e.supplier_tax_id;
      invoice_number = e.invoice_number;
      invoice_date = e.invoice_date;
      currency = e.currency;
      subtotal = e.subtotal;
      tax_amount = e.tax_amount;
      total = e.total;
      line_items = e.line_items;
      vendor_id = field m (λ x. InvoiceMatch.vendor_id x);
      vendor_name = field (vendor_of tables m) (λ v. some (Vendor.legal_name v));
      po_id = field m (λ x. InvoiceMatch.po_id x);
      po_number = field (order_of tables m) (λ o. some (PurchaseOrder.po_number o));
      approved_by = field entry (λ a. some (AuditLog.actor a));
      approved_reason = field entry (λ a. AuditLog.reason a);
      exported_at = signer.now;
    }

-- f"exports/{invoice.id}/{uuid}.json"
unfoldable pub export_key : Signer → ℕ → Text
export_key signer id =
    text "exports/"
    ++ (signer.show_uuid id ++ (text "/" ++ (signer.show_uuid signer.uuid4 ++ text ".json")))

-- The row, the changed invoice and the changed storage.
abbrev pub Exported : Type 0
Exported = Option Models.Export × Invoice × Objects

export_row : Signer → Bytes → ℕ → Models.Export
export_row signer bytes id = record {
  storage_key = export_key signer id;
  contract_version = contract_version;
  signature = sign_payload signer.hmac_sha256 bytes signer.export_signing_secret;
}

-- From the artifact to EXPORTED, for an invoice that is EXPORTING.
unfoldable pub send :
    Signer → Tables → Objects → InvoiceStatus → ExtractedInvoice → Invoice → Result Exported
unfolding export_row
send signer tables objects starting_status e invoice = do
  let bytes = signer.encode (payload_for signer tables invoice starting_status e)
  let row = export_row signer bytes invoice.id
  objects' ← put_artifact signer row.storage_key bytes objects
  invoice' ←
      advance (record invoice { exports = invoice.exports ++ (row ∷ []) }) exported system
        (some (Reason.exported_to row.storage_key))
  ok (some row, invoice', objects')

unfoldable pub write_export :
    Signer → Tables → Objects → Invoice → ExtractedInvoice → Result Exported
unfolding send
write_export signer tables objects invoice e = do
  started ← advance invoice exporting system (some Reason.starting_export)
  send signer tables objects invoice.status e started

unfoldable pub export_stage : Signer → Tables → Objects → Invoice → Result Exported
unfolding write_export
export_stage signer tables objects invoice =
    if is_exportable invoice.status
    then elim (extracted_result invoice) [
      | none ↦ do
        (row, invoice') ← give_up {A = Models.Export} invoice Reason.nothing_to_export
        ok (row, invoice', objects)
      | some r ↦ write_export signer tables objects invoice r.invoice
    ]
    else ok (none, invoice, objects)

unfoldable pub run_export :
    Signer → ℕ → Tables → Objects → Result (Option Models.Export × Tables × Objects)
unfolding export_stage
run_export signer id tables objects = do
  invoice ← or_raise (find_invoice id tables.invoices) (invoice_not_found id)
  (row, invoice', objects') ← export_stage signer tables objects invoice
  ok (row, record tables { invoices = store_invoice invoice' tables.invoices }, objects')
