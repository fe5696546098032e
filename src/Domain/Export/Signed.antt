-- ===== src/Domain/Export/Signed.antt =====
-- What a signature of src/invoice_ops/domain/export.py is about: two exports have the same bytes only
-- if all their fields are the same.
use Prim.Native.String.{String}
use ai_account_payable_invoi.Prelude.{
  ℕ, ◌≡◌, ◌↔◌, refl, sym, ap, ◌∙◌, Option, none, some, List, [], ◌∷◌, ◌==◌, list_eq, nat_eq,
  if◌then◌else◌,
}
use ai_account_payable_invoi.Text.{Text, text}
use ai_account_payable_invoi.Decimal.{Decimal}
use ai_account_payable_invoi.Json.{Json, string, array, Items, item_at, get_member}
use ai_account_payable_invoi.Json.Unambiguous.{IsPlain, dumps_iff}
use ai_account_payable_invoi.Domain.State.{
  InvoiceStatus, received, extracting, extracted, matching, validating, validated, needs_review,
  auto_approved, approved, rejected, exporting, exported, failed, value,
}
use ai_account_payable_invoi.Domain.Extraction.{LineItem}
use ai_account_payable_invoi.Domain.Export.{ExportPayload, contract_version}
use ai_account_payable_invoi.Domain.Export.Encoding.{
  Format, or_null, line_dict, line_dicts, as_dict, to_json_bytes,
}

-- Different values have different texts.
pub record IsInjective (f : Format) : Type 0 where
  pub uuid : (i j : ℕ) → f.show_uuid i ≡ f.show_uuid j → i ≡ j
  pub day : (i j : ℕ) → f.show_day i ≡ f.show_day j → i ≡ j
  pub amount : (a b : Decimal) → f.show_amount a ≡ f.show_amount b → a ≡ b

string-injective : {t u : Text} → string t ≡ string u → t ≡ u
string-injective h = cc

array-injective : {xs ys : Items} → array xs ≡ array ys → xs ≡ ys
array-injective h = cc

or_null-injective {ℓ} :
    {A : Type ℓ} (show : A → Text)
    → ((a b : A) → show a ≡ show b → a ≡ b)
    → (o q : Option A) → or_null show o ≡ or_null show q
    → o ≡ q
or_null-injective show inj none none h = refl
or_null-injective show inj none (some b) h = cc
or_null-injective show inj (some a) none h = cc
or_null-injective show inj (some a) (some b) h = ap some (inj a b (string-injective h))

read_status : Text → Option InvoiceStatus
read_status t =
    if t == text "received"
    then some received
    else if t == text "extracting"
    then some extracting
    else if t == text "extracted"
    then some extracted
    else if t == text "matching"
    then some matching
    else if t == text "validating"
    then some validating
    else if t == text "validated"
    then some validated
    else if t == text "needs_review"
    then some needs_review
    else if t == text "auto_approved"
    then some auto_approved
    else if t == text "approved"
    then some approved
    else if t == text "rejected"
    then some rejected
    else if t == text "exporting"
    then some exporting
    else if t == text "exported"
    then some exported
    else if t == text "failed"
    then some failed
    else none

read_status-value : (s : InvoiceStatus) → read_status (text (value s)) ≡ some s
unfolding read_status
read_status-value received = refl
read_status-value extracting = refl
read_status-value extracted = refl
read_status-value matching = refl
read_status-value validating = refl
read_status-value validated = refl
read_status-value needs_review = refl
read_status-value auto_approved = refl
read_status-value approved = refl
read_status-value rejected = refl
read_status-value exporting = refl
read_status-value exported = refl
read_status-value failed = refl

value-injective : (s t : InvoiceStatus) → text (value s) ≡ text (value t) → s ≡ t
value-injective s t h = same (sym (read_status-value s) ∙ ap read_status h ∙ read_status-value t)
  where
    same : {s t : InvoiceStatus} → some s ≡ some t → s ≡ t
    same e = cc

member_at : (key : String) {x y : Json} → x ≡ y → item_at (text key) x ≡ item_at (text key) y
member_at key e = ap (item_at (text key)) e

value_at : {x y : Json} → some x ≡ some y → x ≡ y
value_at h = cc

module _ (f : Format) (is : IsInjective f) where
  line_dict-injective : (l m : LineItem) → line_dict f l ≡ line_dict f m → l ≡ m
  unfolding item_at get_member
  line_dict-injective l m e = λ i. record {
    description = string-injective (value_at (member_at "description" e)) i;
    quantity =
        or_null-injective f.show_amount is.amount l.quantity m.quantity
          (value_at (member_at "quantity" e)) i;
    unit_price =
        or_null-injective f.show_amount is.amount l.unit_price m.unit_price
          (value_at (member_at "unit_price" e)) i;
    line_total =
        or_null-injective f.show_amount is.amount l.line_total m.line_total
          (value_at (member_at "line_total" e)) i;
  }

  line_dicts-injective : (ls ms : List LineItem) → line_dicts f ls ≡ line_dicts f ms → ls ≡ ms
  line_dicts-injective [] [] h = refl
  line_dicts-injective [] (m ∷ ms) h = cc
  line_dicts-injective (l ∷ ls) [] h = cc
  line_dicts-injective (l ∷ ls) (m ∷ ms) h =
      let first : l ≡ m = line_dict-injective l m (cc) in
      let rest : ls ≡ ms = line_dicts-injective ls ms (cc) in cc

  as_dict-injective :
      (p q : ExportPayload Text)
      → p.contract_version ≡ contract_version
      → q.contract_version ≡ contract_version
      → as_dict f p ≡ as_dict f q
      → p ≡ q
  unfolding as_dict item_at get_member
  as_dict-injective p q v w e = λ i. record {
    contract_version = (v ∙ sym w) i;
    invoice_id =
        is.uuid p.invoice_id q.invoice_id (string-injective (value_at (member_at "invoice_id" e)))
          i;
    status =
        value-injective p.status q.status (string-injective (value_at (member_at "status" e))) i;
    supplier_name =
        or_null-injective (λ t. t) (λ a b e. e) p.supplier_name q.supplier_name
          (value_at (member_at "supplier_name" e)) i;
    supplier_tax_id =
        or_null-injective (λ t. t) (λ a b e. e) p.supplier_tax_id q.supplier_tax_id
          (value_at (member_at "supplier_tax_id" e)) i;
    invoice_number =
        or_null-injective (λ t. t) (λ a b e. e) p.invoice_number q.invoice_number
          (value_at (member_at "invoice_number" e)) i;
    invoice_date =
        or_null-injective f.show_day is.day p.invoice_date q.invoice_date
          (value_at (member_at "invoice_date" e)) i;
    currency =
        or_null-injective (λ t. t) (λ a b e. e) p.currency q.currency
          (value_at (member_at "currency" e)) i;
    subtotal =
        or_null-injective f.show_amount is.amount p.subtotal q.subtotal
          (value_at (member_at "subtotal" e)) i;
    tax_amount =
        or_null-injective f.show_amount is.amount p.tax_amount q.tax_amount
          (value_at (member_at "tax_amount" e)) i;
    total =
        or_null-injective f.show_amount is.amount p.total q.total (value_at (member_at "total" e))
          i;
    line_items =
        line_dicts-injective p.line_items q.line_items
          (array-injective (value_at (member_at "line_items" e))) i;
    vendor_id =
        or_null-injective f.show_uuid is.uuid p.vendor_id q.vendor_id
          (value_at (member_at "vendor_id" e)) i;
    vendor_name =
        or_null-injective (λ t. t) (λ a b e. e) p.vendor_name q.vendor_name
          (value_at (member_at "vendor_name" e)) i;
    po_id =
        or_null-injective f.show_uuid is.uuid p.po_id q.po_id (value_at (member_at "po_id" e)) i;
    po_number =
        or_null-injective (λ t. t) (λ a b e. e) p.po_number q.po_number
          (value_at (member_at "po_number" e)) i;
    approved_by =
        or_null-injective (λ t. t) (λ a b e. e) p.approved_by q.approved_by
          (value_at (member_at "approved_by" e)) i;
    approved_reason =
        or_null-injective (λ t. t) (λ a b e. e) p.approved_reason q.approved_reason
          (value_at (member_at "approved_reason" e)) i;
    exported_at = string-injective (value_at (member_at "exported_at" e)) i;
  }

  -- If different uuids, days and amounts have different texts, then two payloads of this contract's
  -- version, all of whose texts are of Unicode characters other than surrogates, have the same
  -- bytes exactly when they are the same in every field.
  pub to_json_bytes_iff :
      (p q : ExportPayload Text)
      → p.contract_version ≡ contract_version
      → q.contract_version ≡ contract_version
      → IsPlain (as_dict f p)
      → IsPlain (as_dict f q)
      → (to_json_bytes f p ≡ to_json_bytes f q) ↔ (p ≡ q)
  unfolding to_json_bytes
  to_json_bytes_iff p q v w h k = (
    λ e. as_dict-injective p q v w ((dumps_iff (as_dict f p) (as_dict f q) h k).0 e),
    ap (to_json_bytes f),
  )
