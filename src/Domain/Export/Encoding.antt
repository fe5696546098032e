-- ===== src/Domain/Export/Encoding.antt =====
-- The canonical encoding of an export, `to_json_bytes` of src/invoice_ops/domain/export.py: the fields
-- in the order of their keys. The texts of uuids, days and amounts are parameters.
use ai_account_payable_invoi.Prelude.{ℕ, Option, none, some, List, [], ◌∷◌}
use ai_account_payable_invoi.Text.{Text, text}
use ai_account_payable_invoi.Decimal.{Decimal}
use ai_account_payable_invoi.Json.{
  Json, null, string, array, object, Items, nil, cons, Members, end, member,
}
use ai_account_payable_invoi.Json.Dumps.{dumps}
use ai_account_payable_invoi.Domain.State.{value}
use ai_account_payable_invoi.Domain.Extraction.{LineItem}
use ai_account_payable_invoi.Domain.Export.{Bytes, ExportPayload}

pub record Format : Type 0 where
  pub show_uuid : ℕ → Text
  pub show_day : ℕ → Text
  pub show_amount : Decimal → Text

abbrev pub or_null {ℓ} : {A : Type ℓ} → (A → Text) → Option A → Json
or_null show none = null
or_null show (some a) = string (show a)

abbrev pub text_or_null : Option Text → Json
text_or_null = or_null (λ t. t)

abbrev members_of : List (Text × Json) → Members
members_of [] = end
members_of ((key, j) ∷ ms) = member key j (members_of ms)

-- A line as the stored result has it.
abbrev pub line_dict : Format → LineItem → Json
line_dict f l = object (
    members_of (
      (text "description", string l.description)
      ∷ (text "line_total", or_null f.show_amount l.line_total)
      ∷ (text "quantity", or_null f.show_amount l.quantity)
      ∷ (text "unit_price", or_null f.show_amount l.unit_price)
      ∷ []))

abbrev pub line_dicts : Format → List LineItem → Items
line_dicts f [] = nil
line_dicts f (l ∷ ls) = cons (line_dict f l) (line_dicts f ls)

-- `asdict`, in the order of `sort_keys`; the reason of the approval is the text of the audit log.
unfoldable pub as_dict : Format → ExportPayload Text → Json
as_dict f p = object (
    members_of (
      (text "approved_by", text_or_null p.approved_by)
      ∷ (text "approved_reason", text_or_null p.approved_reason)
      ∷ (text "contract_version", string (text p.contract_version))
      ∷ (text "currency", text_or_null p.currency)
      ∷ (text "exported_at", string p.exported_at)
      ∷ (text "invoice_date", or_null f.show_day p.invoice_date)
      ∷ (text "invoice_id", string (f.show_uuid p.invoice_id))
      ∷ (text "invoice_number", text_or_null p.invoice_number)
      ∷ (text "line_items", array (line_dicts f p.line_items))
      ∷ (text "po_id", or_null f.show_uuid p.po_id)
      ∷ (text "po_number", text_or_null p.po_number)
      ∷ (text "status", string (text (value p.status)))
      ∷ (text "subtotal", or_null f.show_amount p.subtotal)
      ∷ (text "supplier_name", text_or_null p.supplier_name)
      ∷ (text "supplier_tax_id", text_or_null p.supplier_tax_id)
      ∷ (text "tax_amount", or_null f.show_amount p.tax_amount)
      ∷ (text "total", or_null f.show_amount p.total)
      ∷ (text "vendor_id", or_null f.show_uuid p.vendor_id)
      ∷ (text "vendor_name", text_or_null p.vendor_name)
      ∷ []))

unfoldable pub to_json_bytes : Format → ExportPayload Text → Bytes
unfolding as_dict
to_json_bytes f p = dumps (as_dict f p)
