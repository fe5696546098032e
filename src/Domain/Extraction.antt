-- ===== src/Domain/Extraction.antt =====
-- The shape of an extracted invoice, src/invoice_ops/domain/extraction.py. A date is the number of
-- its day.
use Prim.Native.String.{String}
use ai_account_payable_invoi.Prelude.{
  ℕ, Option, none, some, List, [], ◌∷◌, ◌==◌, string_eq, if◌then◌else◌,
}
use ai_account_payable_invoi.Text.{Text}
use ai_account_payable_invoi.Decimal.{Decimal}
use ai_account_payable_invoi.Float.{Float}

-- In alphabetical order: the set is only searched and sorted.
abbrev pub critical_fields : List String
critical_fields = "currency" ∷ "invoice_date" ∷ "invoice_number" ∷ "supplier_name" ∷ "total" ∷ []

pub record LineItem : Type 0 where
  pub description : Text
  pub quantity : Option Decimal
  pub unit_price : Option Decimal
  pub line_total : Option Decimal

pub record ExtractedInvoice : Type 0 where
  pub supplier_name : Option Text
  pub supplier_tax_id : Option Text
  pub invoice_number : Option Text
  pub invoice_date : Option ℕ
  pub currency : Option Text
  pub purchase_order_number : Option Text
  pub line_items : List LineItem
  pub subtotal : Option Decimal
  pub tax_amount : Option Decimal
  pub total : Option Decimal

-- A `dict[str, float]`, as its items.
abbrev pub Confidences : Type 0
Confidences = List (String × Float)

-- `d.get(k)`
unfoldable pub lookup {ℓ} : {V : Type ℓ} → String → List (String × V) → Option V
lookup k [] = none
lookup k ((j, v) ∷ d) = if j == k then some v else lookup k d

pub record ExtractionResult : Type 0 where
  pub invoice : ExtractedInvoice
  pub field_confidence : Confidences
  pub notes : Option Text
