-- ===== src/Api/ReviewUi.antt =====
-- The handlers of the review pages, src/invoice_ops/api/review_ui.py. A flash message is a
-- constructor with the values in its text.
use Prim.Native.String.{String}
use ai_account_payable_invoi.Prelude.{
  ℕ, suc, Bool, true, false, Option, none, some, List, [], ◌∷◌, keep, take, contains, ◌==◌, ◌+◌,
  string_eq, if◌then◌else◌,
}
use ai_account_payable_invoi.Text.{Text, Unicode, text, strip}
use ai_account_payable_invoi.Config.{Settings}
use ai_account_payable_invoi.Domain.State.{
  InvoiceStatus, value, all_statuses, auto_approved, failed, status_eq,
}
use ai_account_payable_invoi.Domain.Export.{Bytes}
use ai_account_payable_invoi.Models.{Invoice, Tables, Reason, given}
use ai_account_payable_invoi.Services.Outcome.{
  Result, ok, raised, Error, invoice_not_found, unsupported_content_type, illegal_transition,
}
use ai_account_payable_invoi.Services.Ingestion.{
  IngestResult, accepted_upload, upload_rejected, validate_upload,
}
use ai_account_payable_invoi.Workers.{System, decide, upload, delayed}
use ai_account_payable_invoi.Api.{Response, responds, http_exception}
use ai_account_payable_invoi.Api.Bodies.{UploadFile, content_type_of, filename_of}

-- `InvoiceStatus(value)`: the member with that value, or a `ValueError`.
unfoldable pub member_among : List InvoiceStatus → String → Option InvoiceStatus
member_among [] v = none
member_among (s ∷ ss) v = if value s == v then some s else member_among ss v

unfoldable pub status_of : String → Option InvoiceStatus
unfolding member_among
status_of = member_among all_statuses

-- The rows of the grouped query, in the order in which the statuses first occur.
unfoldable pub add_to : InvoiceStatus → List (InvoiceStatus × ℕ) → List (InvoiceStatus × ℕ)
add_to s [] = (s, 1) ∷ []
add_to s ((t, n) ∷ rows) = if t == s then (t, suc n) ∷ rows else (t, n) ∷ add_to s rows

unfoldable pub count_by_status : List Invoice → List (InvoiceStatus × ℕ)
unfolding add_to
count_by_status [] = []
count_by_status (v ∷ vs) = add_to v.status (count_by_status vs)

-- `sum(n for s, n in by_status.items() if p(s))`
unfoldable pub sum_where : (InvoiceStatus → Bool) → List (InvoiceStatus × ℕ) → ℕ
sum_where p [] = 0
sum_where p ((s, n) ∷ rows) = let rest = sum_where p rows in if p s then n + rest else rest

-- `by_status.get(s, 0)`
unfoldable pub count_of : InvoiceStatus → List (InvoiceStatus × ℕ) → ℕ
count_of s [] = 0
count_of s ((t, n) ∷ rows) = if t == s then n else count_of s rows

pub record StatusCounts : Type 0 where
  pub total : ℕ
  pub needs_review : ℕ
  pub approved : ℕ
  pub rejected : ℕ

-- `_status_counts`
unfoldable pub status_counts : List Invoice → StatusCounts
unfolding count_by_status sum_where count_of
status_counts invoices =
    let by_status = count_by_status invoices in
    record {
      total = sum_where (λ s. true) by_status;
      needs_review = count_of InvoiceStatus.needs_review by_status;
      approved =
          sum_where (λ s. contains (auto_approved ∷ InvoiceStatus.approved ∷ []) s) by_status;
      rejected = sum_where (λ s. contains (InvoiceStatus.rejected ∷ failed ∷ []) s) by_status;
    }

pub record QueuePage : Type 0 where
  pub invoices : List Invoice
  pub status_filter : Option String
  pub counts : StatusCounts

-- A filter that is no status raises a `ValueError`, which nothing turns into an answer.
unfoldable pub ui_queue :
    (List Invoice → List Invoice) → Option String → Tables → Response QueuePage
unfolding status_counts status_of
ui_queue newest_first none tables = responds 200 (record {
  invoices = take 200 (newest_first tables.invoices);
  status_filter = none;
  counts = status_counts tables.invoices;
})
ui_queue newest_first (some filter) tables =
    if filter == ""
    then responds 200 (record {
      invoices = take 200 (newest_first tables.invoices);
      status_filter = some filter;
      counts = status_counts tables.invoices;
    })
    else elim (status_of filter) [
      | none ↦ http_exception 500
      | some s ↦ responds 200 (record {
        invoices = take 200 (newest_first (keep (λ v. Invoice.status v == s) tables.invoices));
        status_filter = some filter;
        counts = status_counts tables.invoices;
      })
    ]

pub data Flash : Type 0 where
  flash_approved flash_rejected : Flash
  flash_error : Error → Flash
  flash_upload : ℕ → Flash

-- Where a redirect leads.
pub data Location : Type 0 where
  to_queue : Option Flash → Location
  to_invoice : ℕ → Option Flash → Location

abbrev pub see_other : Location → Response Location
see_other = responds 303

abbrev pub ui_root : Response Location
ui_root = see_other (to_queue none)

abbrev shown_upload : IngestResult → Result (Unit {0}) × System → Response Location × System
shown_upload result (raised why, after) = (http_exception 500, after)
shown_upload result (ok done, after) = (see_other (to_invoice result.invoice.id none), after)

unfoldable pub ui_upload :
    (Bytes → Text)
    → Settings
    → (System → Result (Unit {0}) × System)
    → ℕ
    → UploadFile
    → System
    → Response Location × System
ui_upload sha256 settings inline id file s =
    elim (validate_upload file.bytes (content_type_of file) settings) [
      | upload_rejected status_code ↦ (see_other (to_queue (some (flash_upload status_code))), s)
      | accepted_upload ↦
          let (result, after) =
            upload sha256 id file.bytes (filename_of file) (content_type_of file) s in
          shown_upload result (delayed settings inline result.created after)
    ]

-- `actor.strip() or "reviewer"`
abbrev pub clean_actor : Text → Text
clean_actor [] = text "reviewer"
clean_actor (c ∷ t) = c ∷ t

-- `reason.strip() or None`
abbrev pub clean_reason : Text → Option Reason
clean_reason [] = none
clean_reason (c ∷ t) = some (given (c ∷ t))

abbrev pub flash_of : Bool → Flash
flash_of approve = if approve then flash_approved else flash_rejected

-- A `ValueError` leads back to the queue, and a `RuntimeError` is shown on the invoice's page.
abbrev pub redirected : Bool → ℕ → Result (Unit {0}) → Response Location
redirected approve id (ok done) = see_other (to_invoice id (some (flash_of approve)))
redirected approve id (raised (invoice_not_found i)) = see_other (to_queue none)
redirected approve id (raised unsupported_content_type) = see_other (to_queue none)
redirected approve id (raised (illegal_transition from to)) =
    see_other (to_invoice id (some (flash_error (illegal_transition from to))))
redirected approve id (raised why) = http_exception 500

-- `_decide`
unfoldable pub ui_decide : Unicode → Bool → ℕ → Text → Text → System → Response Location × System
ui_decide u approve id actor reason s =
    let (outcome, after) =
      decide approve (clean_actor (strip u actor)) (clean_reason (strip u reason)) id s in
    (redirected approve id outcome, after)

unfoldable pub ui_approve : Unicode → ℕ → Text → Text → System → Response Location × System
unfolding ui_decide
ui_approve u = ui_decide u true

unfoldable pub ui_reject : Unicode → ℕ → Text → Text → System → Response Location × System
unfolding ui_decide
ui_reject u = ui_decide u false
