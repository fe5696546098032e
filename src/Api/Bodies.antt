-- ===== src/Api/Bodies.antt =====
-- The bodies of the JSON interface, src/invoice_ops/api/invoices.py. Ids are numbers, and the columns
-- that only the database fills are left out, as in the rows.
use Prim.Native.String.{String}
use ai_account_payable_invoi.Prelude.{
  string_eq, ℕ, Bool, Option, none, some, List, [], ◌∷◌, map, ◌==◌, if◌then◌else◌,
}
use ai_account_payable_invoi.Text.{Text, text}
use ai_account_payable_invoi.Float.{Float}
use ai_account_payable_invoi.Domain.State.{InvoiceStatus}
use ai_account_payable_invoi.Domain.Extraction.{ExtractionResult, Confidences}
use ai_account_payable_invoi.Domain.Matching.{VendorMatchMethod, PoMatchMethod, VendorCandidate}
use ai_account_payable_invoi.Domain.RuleResults.{RuleResult}
use ai_account_payable_invoi.Domain.Export.{Bytes}
use ai_account_payable_invoi.Models
use ai_account_payable_invoi.Models.{
  Invoice, InvoiceMatch, InvoiceSource, TextMethod, Tables, Reason, Vendor, PurchaseOrder,
  find_invoice, find_vendor, find_order,
}

pub record InvoiceOut : Type 0 where
  pub id : ℕ
  pub status : InvoiceStatus
  pub source : InvoiceSource
  pub original_filename : Text
  pub content_type : String
  pub size_bytes : ℕ
  pub storage_key : Text
  pub content_sha256 : Text
  pub failure_reason : Option Reason

-- `InvoiceOut.model_validate`, and the same for the other rows.
abbrev pub invoice_out : Invoice → InvoiceOut
invoice_out v = record {
  id = v.id;
  status = v.status;
  source = v.source;
  original_filename = v.original_filename;
  content_type = v.content_type;
  size_bytes = v.size_bytes;
  storage_key = v.storage_key;
  content_sha256 = v.content_sha256;
  failure_reason = v.failure_reason;
}

pub record ExtractionOut : Type 0 where
  pub model : Text
  pub text_method : TextMethod
  pub attempts : ℕ
  pub ok : Bool
  pub result_json : Option ExtractionResult
  pub field_confidence : Option Confidences
  pub error : Option Reason

abbrev pub extraction_out : Models.Extraction → ExtractionOut
extraction_out e = record {
  model = e.model;
  text_method = e.text_method;
  attempts = e.attempts;
  ok = e.ok;
  result_json = e.result_json;
  field_confidence = e.field_confidence;
  error = e.error;
}

pub record InvoiceMatchOut : Type 0 where
  pub vendor_id : Option ℕ
  pub vendor_name : Option Text
  pub vendor_match_method : VendorMatchMethod
  pub vendor_confidence : Float
  pub vendor_candidates : List VendorCandidate
  pub po_id : Option ℕ
  pub po_number : Option Text
  pub po_match_method : PoMatchMethod

-- The row that a foreign key refers to, if it is set.
abbrev pub referenced {ℓ} : {A : Type ℓ} → (ℕ → Option A) → Option ℕ → Option A
referenced find none = none
referenced find (some id) = find id

abbrev pub name_of : Option Vendor → Option Text
name_of none = none
name_of (some v) = some v.legal_name

abbrev pub number_of : Option PurchaseOrder → Option Text
number_of none = none
number_of (some po) = some po.po_number

module _ (tables : Tables) where
  -- `match.vendor`
  abbrev pub vendor_of : InvoiceMatch → Option Vendor
  vendor_of m = referenced (λ id. find_vendor id tables.vendors) m.vendor_id

  -- `match.purchase_order`
  abbrev pub purchase_order_of : InvoiceMatch → Option PurchaseOrder
  purchase_order_of m = referenced (λ id. find_order id tables.purchase_orders) m.po_id

  -- `InvoiceMatchOut.from_model`
  abbrev pub match_out : InvoiceMatch → InvoiceMatchOut
  match_out m = record {
    vendor_id = m.vendor_id;
    vendor_name = name_of (vendor_of m);
    vendor_match_method = m.vendor_match_method;
    vendor_confidence = m.vendor_confidence;
    vendor_candidates = m.vendor_candidates;
    po_id = m.po_id;
    po_number = number_of (purchase_order_of m);
    po_match_method = m.po_match_method;
  }

pub record ValidationOut : Type 0 where
  pub passed : Bool
  pub results : List RuleResult

pub record AuditLogOut : Type 0 where
  pub from_status : InvoiceStatus
  pub to_status : InvoiceStatus
  pub actor : Text
  pub reason : Option Reason

pub record ExportOut : Type 0 where
  pub storage_key : Text
  pub contract_version : String
  pub signature : Text

-- What it inherits is its first field.
pub record InvoiceDetailOut : Type 0 where
  pub invoice : InvoiceOut
  pub extractions : List ExtractionOut
  pub matches : List InvoiceMatchOut
  pub validations : List ValidationOut
  pub audit_log : List AuditLogOut
  pub exports : List ExportOut

abbrev pub detail_out : Tables → Invoice → InvoiceDetailOut
detail_out tables v = record {
  invoice = invoice_out v;
  extractions = map extraction_out v.extractions;
  matches = map (match_out tables) v.matches;
  validations =
      map (λ x. record { passed = Models.Validation.passed x; results = x.results }) v.validations;
  audit_log =
      map
        (λ e. record {
          from_status = Models.AuditLog.from_status e;
          to_status = e.to_status;
          actor = e.actor;
          reason = e.reason;
        })
        v.audit_log;
  exports =
      map
        (λ x. record {
          storage_key = Models.Export.storage_key x;
          contract_version = x.contract_version;
          signature = x.signature;
        })
        v.exports;
}

pub record ReviewDecisionIn : Type 0 where
  pub actor : Text
  pub reason : Option Text

-- What the request carries of the file.
pub record UploadFile : Type 0 where
  pub content_type : Option String
  pub filename : Option Text
  pub bytes : Bytes

-- `file.content_type or "application/octet-stream"`
abbrev pub content_type_of : UploadFile → String
content_type_of file = elim file.content_type [
  | none ↦ "application/octet-stream"
  | some t ↦ if t == "" then "application/octet-stream" else t
]

-- `file.filename or "upload.bin"`
abbrev pub filename_of : UploadFile → Text
filename_of file = elim file.filename [
  | none ↦ text "upload.bin"
  | some [] ↦ text "upload.bin"
  | some (c ∷ t) ↦ c ∷ t
]
