-- ===== src/Domain/Export.antt =====
-- The export artifact, src/invoice_ops/domain/export.py. HMAC-SHA256 is a parameter; a field that the
-- source prints keeps its value, which Encoding prints.
pub mod Encoding
pub mod Signed
use Prim.Native.String.{String}
use ai_account_payable_invoi.Prelude.{ℕ, Bool, Option, List, ◌==◌, list_eq, nat_eq}
use ai_account_payable_invoi.Text.{Text}
use ai_account_payable_invoi.Decimal.{Decimal}
use ai_account_payable_invoi.Domain.State.{InvoiceStatus}
use ai_account_payable_invoi.Domain.Extraction.{LineItem}

abbrev pub Bytes : Type 0
Bytes = List ℕ

abbrev pub contract_version : String
contract_version = "1"

-- A reason as the audit log prints it is a type of its own, `R`.
pub record ExportPayload (R : Type 0) : Type 0 where
  pub contract_version : String
  pub invoice_id : ℕ
  pub status : InvoiceStatus
  pub supplier_name : Option Text
  pub supplier_tax_id : Option Text
  pub invoice_number : Option Text
  pub invoice_date : Option ℕ
  pub currency : Option Text
  pub subtotal : Option Decimal
  pub tax_amount : Option Decimal
  pub total : Option Decimal
  pub line_items : List LineItem
  pub vendor_id : Option ℕ
  pub vendor_name : Option Text
  pub po_id : Option ℕ
  pub po_number : Option Text
  pub approved_by : Option Text
  pub approved_reason : Option R
  pub exported_at : Text

module _ (hmac_sha256 : Text → Bytes → Text) where
  unfoldable pub sign_payload : Bytes → Text → Text
  sign_payload payload_bytes secret = hmac_sha256 secret payload_bytes

  unfoldable pub verify_signature : Bytes → Text → Text → Bool
  unfolding sign_payload
  verify_signature payload_bytes secret signature = sign_payload payload_bytes secret == signature
