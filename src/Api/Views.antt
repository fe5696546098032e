-- ===== src/Api/Views.antt =====
-- What the templates of the review pages are given, src/invoice_ops/api/review_ui.py.
use Prim.Native.String.{String}
use mathlib.Core.List.{reverse}
use ai_account_payable_invoi.Prelude.{
  ℕ, Bool, Option, none, some, List, [], ◌∷◌, map, get_last?, ◌==◌, string_eq, if◌then◌else◌,
}
use ai_account_payable_invoi.Text.{Text}
use ai_account_payable_invoi.Float.{Float}
use ai_account_payable_invoi.Decimal.{Decimal}
use ai_account_payable_invoi.Domain.State.{needs_review, status_eq}
use ai_account_payable_invoi.Domain.Extraction.{
  ExtractedInvoice, ExtractionResult, Confidences, lookup,
}
use ai_account_payable_invoi.Domain.Matching.{VendorMatchMethod, PoMatchMethod}
use ai_account_payable_invoi.Domain.RuleResults.{RuleResult}
use ai_account_payable_invoi.Models
use ai_account_payable_invoi.Models.{Invoice, InvoiceMatch, Tables, Reason, given, find_invoice}
use ai_account_payable_invoi.Api.{Response, responds, http_exception}
use ai_account_payable_invoi.Api.Bodies.{vendor_of, purchase_order_of, name_of, number_of}

-- A value of the extracted invoice, as its JSON holds it.
pub data ShownValue : Type 0 where
  of_text : Text → ShownValue
  of_date : ℕ → ShownValue
  of_amount : Decimal → ShownValue

-- `_FieldRow`
pub record FieldRow : Type 0 where
  pub label : String
  pub value : Option ShownValue
  pub confidence : Option Float

abbrev pub in_field {ℓ} : {A : Type ℓ} → (A → ShownValue) → Option A → Option ShownValue
in_field f none = none
in_field f (some a) = some (f a)

-- `(result_json or {}).get("invoice", {}).get(...)`
abbrev pub from_result {ℓ} :
    {A : Type ℓ} → Option ExtractionResult → (ExtractedInvoice → Option A) → Option A
from_result none field = none
from_result (some r) field = field r.invoice

-- `(field_confidence or {}).get(...)`
abbrev pub from_confidence : Option Confidences → String → Option Float
from_confidence none name = none
from_confidence (some d) name = lookup name d

unfoldable pub field_rows : Models.Extraction → List FieldRow
field_rows ex =
    record {
      label = "Supplier";
      value = in_field of_text (from_result ex.result_json (λ i. ExtractedInvoice.supplier_name i));
      confidence = from_confidence ex.field_confidence "supplier_name";
    }
    ∷ record {
      label = "Invoice #";
      value =
          in_field of_text (from_result ex.result_json (λ i. ExtractedInvoice.invoice_number i));
      confidence = from_confidence ex.field_confidence "invoice_number";
    }
    ∷ record {
      label = "Date";
      value = in_field of_date (from_result ex.result_json (λ i. ExtractedInvoice.invoice_date i));
      confidence = from_confidence ex.field_confidence "invoice_date";
    }
    ∷ record {
      label = "Currency";
      value = in_field of_text (from_result ex.result_json (λ i. ExtractedInvoice.currency i));
      confidence = from_confidence ex.field_confidence "currency";
    }
    ∷ record {
      label = "Total";
      value = in_field of_amount (from_result ex.result_json (λ i. ExtractedInvoice.total i));
      confidence = from_confidence ex.field_confidence "total";
    }
    ∷ record {
      label = "PO number";
      value =
          in_field of_text
            (from_result ex.result_json (λ i. ExtractedInvoice.purchase_order_number i));
      confidence = none;
    }
    ∷ []

pub record ExtractionView : Type 0 where
  pub model : Text
  pub attempts : ℕ
  pub ok : Bool
  pub error : Option Reason
  pub fields : List FieldRow

-- `_extraction_view`, and the same for the other rows.
unfoldable pub extraction_view : Models.Extraction → ExtractionView
unfolding field_rows
extraction_view ex = record {
  model = ex.model;
  attempts = ex.attempts;
  ok = ex.ok;
  error = ex.error;
  fields = if ex.ok then field_rows ex else [];
}

pub record MatchView : Type 0 where
  pub vendor_name : Option Text
  pub vendor_method : VendorMatchMethod
  pub po_number : Option Text
  pub po_method : PoMatchMethod

abbrev pub match_view : Tables → InvoiceMatch → MatchView
match_view tables m = record {
  vendor_name = name_of (vendor_of tables m);
  vendor_method = m.vendor_match_method;
  po_number = number_of (purchase_order_of tables m);
  po_method = m.po_match_method;
}

pub record ValidationView : Type 0 where
  pub passed : Bool
  pub results : List RuleResult

pub record ExportView : Type 0 where
  pub storage_key : Text
  pub contract_version : String
  pub signature : Text

pub record SummaryView : Type 0 where
  pub supplier : Option Text
  pub total : Option Decimal
  pub currency : Option Text
  pub total_confidence : Option Float
  pub vendor_name : Option Text
  pub po_number : Option Text

-- What the latest attempt gives, if it was successful.
abbrev shown_result : Option Models.Extraction → Option ExtractionResult
shown_result none = none
shown_result (some ex) = if ex.ok then ex.result_json else none

abbrev shown_confidence : Option Models.Extraction → Option Confidences
shown_confidence none = none
shown_confidence (some ex) = if ex.ok then ex.field_confidence else none

abbrev of_match {ℓ} : {A : Type ℓ} → (InvoiceMatch → Option A) → Option InvoiceMatch → Option A
of_match f none = none
of_match f (some m) = f m

unfoldable pub summary_view : Tables → Invoice → SummaryView
summary_view tables invoice =
    let data_of = shown_result (get_last? invoice.extractions) in
    let latest_match = get_last? invoice.matches in
    record {
      supplier = from_result data_of (λ i. ExtractedInvoice.supplier_name i);
      total = from_result data_of (λ i. ExtractedInvoice.total i);
      currency = from_result data_of (λ i. ExtractedInvoice.currency i);
      total_confidence = from_confidence (shown_confidence (get_last? invoice.extractions)) "total";
      vendor_name = of_match (λ m. name_of (vendor_of tables m)) latest_match;
      po_number = of_match (λ m. number_of (purchase_order_of tables m)) latest_match;
    }

pub record DetailPage : Type 0 where
  pub invoice : Invoice
  pub summary : SummaryView
  pub extractions : List ExtractionView
  pub matches : List MatchView
  pub validations : List ValidationView
  pub audit_log : List Models.AuditLog
  pub exports : List ExportView
  pub can_decide : Bool

unfoldable pub detail_page : Tables → Invoice → DetailPage
unfolding extraction_view summary_view
detail_page tables invoice = record {
  invoice = invoice;
  summary = summary_view tables invoice;
  extractions = map extraction_view (reverse invoice.extractions);
  matches = map (match_view tables) (reverse invoice.matches);
  validations =
      map (λ v. record { passed = Models.Validation.passed v; results = v.results })
        (reverse invoice.validations);
  audit_log = reverse invoice.audit_log;
  exports =
      map
        (λ e. record {
          storage_key = Models.Export.storage_key e;
          contract_version = e.contract_version;
          signature = e.signature;
        })
        (reverse invoice.exports);
  can_decide = invoice.status == needs_review;
}

unfoldable pub ui_invoice_detail : ℕ → Tables → Response DetailPage
unfolding detail_page
ui_invoice_detail id tables = elim (find_invoice id tables.invoices) [
  | none ↦ http_exception 404
  | some invoice ↦ responds 200 (detail_page tables invoice)
]
