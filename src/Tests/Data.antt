-- ===== src/Tests/Data.antt =====
-- An invoice of 119.00 with its order and its vendor, and simple stand-ins for the surroundings.
use ai_account_payable_invoi.Prelude.{
  map, ℕ, ◌+◌, ◌-◌, ◌^◌, Bool, true, ◌&&◌, ◌||◌, none, some, List, [], ◌∷◌, ◌==◌, leb, list_eq,
  nat_eq, if◌then◌else◌,
}
use ai_account_payable_invoi.Prelude.Int
use ai_account_payable_invoi.Text.{Text, Unicode, text}
use ai_account_payable_invoi.Float.{Float, finite, zero_float}
use ai_account_payable_invoi.Decimal.{Decimal}
use ai_account_payable_invoi.Config.{default_settings}
use ai_account_payable_invoi.Domain.State.{
  InvoiceStatus, received, extracting, extracted, matching, validating, validated, auto_approved,
  exporting,
}
use ai_account_payable_invoi.Domain.Extraction.{ExtractedInvoice, Confidences, ExtractionResult}
use ai_account_payable_invoi.Domain.Validation.{PoSnapshot, ValidationInput}
use ai_account_payable_invoi.Domain.Matching.{
  VendorIdentity, PoIdentity, VendorMatchMethod, exact_number,
}
use ai_account_payable_invoi.Models
use ai_account_payable_invoi.Models.{
  Invoice, InvoiceSource, InvoiceMatch, AuditLog, Tables, pdfplumber,
}
use ai_account_payable_invoi.Services.Session.{Objects}
use ai_account_payable_invoi.Services.Extraction.{Llm, replied, Parsed, parsed, Runtime}
use ai_account_payable_invoi.Services.Export.{Signer}

abbrev between : ℕ → ℕ → ℕ → Bool
between low high c = leb low c && leb c high

-- The tables for ASCII.
abbrev pub ascii : Unicode
ascii = record {
  lower = map (λ c. if between 65 90 c then c + 32 else c);
  upper = λ c. if between 97 122 c then (c - 32) ∷ [] else c ∷ [];
  is_space = λ c. c == 32 || between 9 13 c;
  is_alnum = λ c. between 48 57 c || (between 65 90 c || between 97 122 c);
}

abbrev pub cents : ℕ → Decimal
cents n = record { coefficient = Int.pos n; scale = 2 }

abbrev pub acme_invoice : ExtractedInvoice
acme_invoice = record {
  supplier_name = some (text "Acme");
  supplier_tax_id = some (text "de 1");
  invoice_number = some (text "INV-1");
  invoice_date = some 20000;
  currency = some (text "EUR");
  purchase_order_number = some (text "po 7");
  line_items =
      record {
        description = text "Paper";
        quantity = none;
        unit_price = none;
        line_total = some (cents 10000);
      }
      ∷ [];
  subtotal = some (cents 10000);
  tax_amount = some (cents 1900);
  total = some (cents 11900);
}

abbrev pub acme_order : PoSnapshot
acme_order = record {
  po_number = text "PO-7";
  currency = text "eur";
  total = cents 11900;
  vendor_id = 1;
}

abbrev pub acme_input : ValidationInput
acme_input = record {
  invoice = acme_invoice;
  matched_po = some acme_order;
  matched_vendor_id = some 1;
  duplicate_candidates = [];
}

-- A credit of 119.00 as the order.
abbrev pub credit_order : PoSnapshot
credit_order = record acme_order { total = record { coefficient = Int.negsuc 11899; scale = 2 } }

abbrev pub credit_input : ValidationInput
credit_input = record acme_input { matched_po = some credit_order }

abbrev pub acme : VendorIdentity
acme = record { vendor_id = 1; legal_name = text "ACME"; tax_id = some (text "DE-1"); aliases = [] }

abbrev pub other_vendor : VendorIdentity
other_vendor = record { vendor_id = 2; legal_name = text "Bolt"; tax_id = none; aliases = [] }

abbrev pub orders : List PoIdentity
orders =
    record { po_id = 7; po_number = text "PO-7" }
    ∷ record { po_id = 8; po_number = text "PO-8" }
    ∷ []

-- A similarity that knows equal texts only.
abbrev pub same_or_not : Text → Text → Float
same_or_not a b = if a == b then finite (Int.pos 1) else zero_float

abbrev pub sure : Float
sure = finite (Int.pos (2 ^ 1074))

abbrev pub all_sure : Confidences
all_sure =
    ("currency", sure)
    ∷ ("invoice_date", sure)
    ∷ ("invoice_number", sure)
    ∷ ("supplier_name", sure)
    ∷ ("total", sure)
    ∷ []

abbrev pub acme_result : ExtractionResult
acme_result = record { invoice = acme_invoice; field_confidence = all_sure; notes = none }

abbrev pub fresh : Invoice
fresh = record {
  id = 5;
  status = received;
  source = InvoiceSource.upload;
  original_filename = text "a.pdf";
  content_type = "application/pdf";
  size_bytes = 3;
  storage_key = text "a";
  content_sha256 = text "0";
  failure_reason = none;
  extractions = [];
  matches = [];
  validations = [];
  audit_log = [];
  exports = [];
}

abbrev pub tables : Tables
tables = record {
  invoices = fresh ∷ [];
  vendors =
      record {
        id = 1;
        legal_name = text "ACME";
        tax_id = some (text "DE-1");
        aliases = [];
        country = none;
        active = true;
      }
      ∷ [];
  purchase_orders =
      record {
        id = 7;
        po_number = text "PO-7";
        vendor_id = 1;
        currency = text "EUR";
        subtotal = cents 10000;
        tax_amount = cents 1900;
        total = cents 11900;
        status = text "open";
        lines = [];
      }
      ∷ [];
}

abbrev pub objects : Objects
objects = (text "a", 1 ∷ 2 ∷ 3 ∷ []) ∷ []

-- A model that answers the first prompt wrongly, and a parser that accepts what is not empty.
abbrev pub model : Llm
model n prompt =
    if n == 0
    then replied (record { content = []; model = [] })
    else replied (record { content = text "x"; model = text "m" })

abbrev accept : Text → Parsed Text
accept [] = Parsed.rejected (text "empty")
accept (c ∷ t) = parsed (c ∷ t)

abbrev pub runtime : Runtime Text
runtime = record {
  unicode = ascii;
  pdf_pages = λ bytes. some (some (text "Invoice") ∷ []);
  json_loads = accept;
  model_validate = λ t. parsed acme_result;
  openrouter = model;
  settings = default_settings;
}

abbrev pub signer : Signer
signer = record {
  encode = λ p. p.invoice_id ∷ [];
  hmac_sha256 = λ secret bytes. bytes;
  show_uuid = λ i. i ∷ [];
  uuid4 = 9;
  now = text "now";
  export_signing_secret = text "s";
  put_fault = λ key bytes. none;
}

abbrev pub acme_extraction : Models.Extraction
acme_extraction = record {
  model = text "m";
  text_method = pdfplumber;
  attempts = 1;
  ok = true;
  result_json = some acme_result;
  field_confidence = some all_sure;
  error = none;
  raw_response = some (text "x");
}

abbrev pub acme_match : InvoiceMatch
acme_match = record {
  vendor_id = some 1;
  vendor_match_method = VendorMatchMethod.tax_id;
  vendor_confidence = sure;
  vendor_candidates = [];
  po_id = some 7;
  po_match_method = exact_number;
}

abbrev pub acme_validation : Models.Validation
acme_validation = record { results = []; passed = true }

-- The invoice with the rows of each stage, at a status.
abbrev pub with_rows : InvoiceStatus → Invoice
with_rows s = record fresh {
  status = s;
  extractions = acme_extraction ∷ [];
  matches = acme_match ∷ [];
  validations = acme_validation ∷ [];
}

-- The same without rows.
abbrev pub bare : InvoiceStatus → Invoice
bare s = record fresh { status = s }

abbrev entry : InvoiceStatus → InvoiceStatus → AuditLog
entry s t = record { from_status = s; to_status = t; actor = text "system"; reason = none }

-- On its way to accounting, with its whole history.
abbrev pub exporting_one : Invoice
exporting_one = record (with_rows exporting) {
  audit_log =
      entry received extracting
      ∷ entry extracting extracted
      ∷ entry extracted matching
      ∷ entry matching validating
      ∷ entry validating validated
      ∷ entry validated auto_approved
      ∷ entry auto_approved exporting
      ∷ [];
}
