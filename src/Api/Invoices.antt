-- ===== src/Api/Invoices.antt =====
-- The handlers of the JSON interface, src/invoice_ops/api/invoices.py.
use ai_account_payable_invoi.Prelude.{
  take, drop, ℕ, Bool, true, false, Option, none, some, List, map, leb, ◌&&◌, if◌then◌else◌,
}
use ai_account_payable_invoi.Config.{Settings}
use ai_account_payable_invoi.Domain.Export.{Bytes}
use ai_account_payable_invoi.Text.{Text}
use ai_account_payable_invoi.Models.{Invoice, Tables, Reason, given, find_invoice}
use ai_account_payable_invoi.Services.Outcome.{
  Result, ok, raised, Error, invoice_not_found, unsupported_content_type, illegal_transition,
}
use ai_account_payable_invoi.Services.Ingestion.{
  IngestResult, accepted_upload, upload_rejected, validate_upload,
}
use ai_account_payable_invoi.Workers.{System, decide, upload, delayed}
use ai_account_payable_invoi.Api.{Response, responds, http_exception}
use ai_account_payable_invoi.Api.Bodies.{
  InvoiceOut, invoice_out, InvoiceDetailOut, detail_out, ReviewDecisionIn, UploadFile,
  content_type_of, filename_of,
}

-- An exception of the inline task is the server's error.
abbrev pub uploaded_out : IngestResult → Result (Unit {0}) × System → Response InvoiceOut × System
uploaded_out result (raised why, after) = (http_exception 500, after)
uploaded_out result (ok done, after) =
    (responds (if result.created then 201 else 200) (invoice_out result.invoice), after)

-- `id` is the new row's. The answer shows the row as it was inserted, whatever ran inline.
unfoldable pub upload_invoice :
    (Bytes → Text)
    → Settings
    → (System → Result (Unit {0}) × System)
    → ℕ
    → UploadFile
    → System
    → Response InvoiceOut × System
upload_invoice sha256 settings inline id file s =
    elim (validate_upload file.bytes (content_type_of file) settings) [
      | upload_rejected status_code ↦ (http_exception status_code, s)
      | accepted_upload ↦
          let (result, after) =
            upload sha256 id file.bytes (filename_of file) (content_type_of file) s in
          uploaded_out result (delayed settings inline result.created after)
    ]

-- `newest_first` is the order in which this request's query lists the rows, by their `created_at`
-- alone: rows of one time stand in no fixed order, so another request may have another. The framework
-- answers 422 to a page size or an offset out of its bounds.
unfoldable pub list_invoices :
    (List Invoice → List Invoice) → ℕ → ℕ → Tables → Response (List InvoiceOut)
list_invoices newest_first limit offset tables =
    if leb 1 limit && leb limit 200
    then responds 200 (map invoice_out (take limit (drop offset (newest_first tables.invoices))))
    else http_exception 422

unfoldable pub get_invoice : ℕ → Tables → Response InvoiceDetailOut
get_invoice id tables = elim (find_invoice id tables.invoices) [
  | none ↦ http_exception 404
  | some invoice ↦ responds 200 (detail_out tables invoice)
]

-- The status code that an exception is turned into: 404 for a `ValueError` and 409 for a
-- `RuntimeError`; any other is the server's, 500.
abbrev pub status_code_of : Error → ℕ
status_code_of (invoice_not_found id) = 404
status_code_of unsupported_content_type = 404
status_code_of (illegal_transition from to) = 409
status_code_of e = 500

-- `str | None` as the rows keep a reason.
abbrev pub given_reason : Option Text → Option Reason
given_reason none = none
given_reason (some t) = some (given t)

-- The invoice that a decision returns is the one that the session has committed.
abbrev pub decided_out : ℕ → Result (Unit {0}) × System → Response InvoiceOut × System
decided_out id (raised why, after) = (http_exception (status_code_of why), after)
decided_out id (ok done, after) = elim (find_invoice id after.tables.invoices) [
  | none ↦ (http_exception 500, after)
  | some invoice ↦ (responds 200 (invoice_out invoice), after)
]

-- `_record_decision`
unfoldable pub record_decision : Bool → ℕ → ReviewDecisionIn → System → Response InvoiceOut × System
record_decision approve id body s =
    decided_out id (decide approve body.actor (given_reason body.reason) id s)

unfoldable pub approve_invoice_endpoint :
    ℕ → ReviewDecisionIn → System → Response InvoiceOut × System
unfolding record_decision
approve_invoice_endpoint = record_decision true

unfoldable pub reject_invoice_endpoint :
    ℕ → ReviewDecisionIn → System → Response InvoiceOut × System
unfolding record_decision
reject_invoice_endpoint = record_decision false
