-- ===== src/Models.antt =====
-- The rows, src/invoice_ops/models.py. An invoice holds the rows that its relationships load, oldest
-- first; ids are numbers; the columns that only the database fills are left out.
use Prim.Native.String.{String}
use ai_account_payable_invoi.Prelude.{
  ℕ, Bool, Option, none, some, List, [], ◌∷◌, ◌==◌, nat_eq, if◌then◌else◌,
}
use ai_account_payable_invoi.Text.{Text}
use ai_account_payable_invoi.Float.{Float}
use ai_account_payable_invoi.Decimal.{Decimal}
use ai_account_payable_invoi.Domain.State.{InvoiceStatus}
use ai_account_payable_invoi.Domain.Extraction.{ExtractionResult, Confidences}
use ai_account_payable_invoi.Domain.Matching.{VendorMatchMethod, PoMatchMethod, VendorCandidate}
use ai_account_payable_invoi.Domain.RuleResults.{RuleResult}
use ai_account_payable_invoi.Domain.Approval.{ReviewReason}

pub data InvoiceSource : Type 0 where
  upload email api : InvoiceSource

pub data TextMethod : Type 0 where
  pdfplumber ocr : TextMethod

-- Why a response of the model was rejected, with the parser's words.
pub data Hint : Type 0 where
  invalid_json schema_mismatch : Text → Hint

-- A reason or an error as the rows keep it: a constructor for each text, with its values.
pub data Reason : Type 0 where
  given : Text → Reason
  starting_extraction starting_matching starting_export : Reason
  no_text_layer no_api_key : Reason
  attempts_rejected : List Hint → Reason
  extracted_in : ℕ → Text → Reason
  nothing_to_match nothing_to_validate nothing_to_approve nothing_to_export : Reason
  matched_by : VendorMatchMethod → PoMatchMethod → Reason
  rules_evaluated : ℕ → Bool → Reason
  review_for : List ReviewReason → Reason
  all_checks_passed : Reason
  exported_to : Text → Reason

pub record AuditLog : Type 0 where
  pub from_status : InvoiceStatus
  pub to_status : InvoiceStatus
  pub actor : Text
  pub reason : Option Reason

pub record Extraction : Type 0 where
  pub model : Text
  pub text_method : TextMethod
  pub attempts : ℕ
  pub ok : Bool
  pub result_json : Option ExtractionResult
  pub field_confidence : Option Confidences
  pub error : Option Reason
  pub raw_response : Option Text

pub record InvoiceMatch : Type 0 where
  pub vendor_id : Option ℕ
  pub vendor_match_method : VendorMatchMethod
  pub vendor_confidence : Float
  pub vendor_candidates : List VendorCandidate
  pub po_id : Option ℕ
  pub po_match_method : PoMatchMethod

pub record Validation : Type 0 where
  pub results : List RuleResult
  pub passed : Bool

pub record Export : Type 0 where
  pub storage_key : Text
  pub contract_version : String
  pub signature : Text

pub record Invoice : Type 0 where
  pub id : ℕ
  pub status : InvoiceStatus
  pub source : InvoiceSource
  pub original_filename : Text
  pub content_type : String
  pub size_bytes : ℕ
  pub storage_key : Text
  pub content_sha256 : Text
  pub failure_reason : Option Reason
  pub extractions : List Extraction
  pub matches : List InvoiceMatch
  pub validations : List Validation
  pub audit_log : List AuditLog
  pub exports : List Export

pub record Vendor : Type 0 where
  pub id : ℕ
  pub legal_name : Text
  pub tax_id : Option Text
  pub aliases : List Text
  pub country : Option Text
  pub active : Bool

pub record PoLine : Type 0 where
  pub description : Text
  pub quantity : Decimal
  pub unit_price : Decimal
  pub line_total : Decimal

pub record PurchaseOrder : Type 0 where
  pub id : ℕ
  pub po_number : Text
  pub vendor_id : ℕ
  pub currency : Text
  pub subtotal : Decimal
  pub tax_amount : Decimal
  pub total : Decimal
  pub status : Text
  pub lines : List PoLine

-- What one session sees of the database.
pub record Tables : Type 0 where
  pub invoices : List Invoice
  pub vendors : List Vendor
  pub purchase_orders : List PurchaseOrder

-- `session.get(Invoice, id)`, and the same for the other tables.
unfoldable pub find_invoice : ℕ → List Invoice → Option Invoice
find_invoice i [] = none
find_invoice i (x ∷ xs) = if x.id == i then some x else find_invoice i xs

unfoldable pub find_vendor : ℕ → List Vendor → Option Vendor
find_vendor i [] = none
find_vendor i (x ∷ xs) = if x.id == i then some x else find_vendor i xs

unfoldable pub find_order : ℕ → List PurchaseOrder → Option PurchaseOrder
find_order i [] = none
find_order i (x ∷ xs) = if x.id == i then some x else find_order i xs

-- The flush of a changed invoice: the row of that id is replaced.
unfoldable pub store_invoice : Invoice → List Invoice → List Invoice
store_invoice v [] = []
store_invoice v (x ∷ xs) = if x.id == v.id then v ∷ xs else x ∷ store_invoice v xs
