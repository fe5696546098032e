-- ===== src/Tests/Exports.antt =====
-- The canonical encoding of two exports.
use ai_account_payable_invoi.Prelude.{ℕ, ◌≡◌, ◌↔◌, refl, none, some, [], ◌∷◌, arith}
use ai_account_payable_invoi.Prelude.Int
use ai_account_payable_invoi.Text.{Text, text}
use ai_account_payable_invoi.Decimal.{Decimal}
use ai_account_payable_invoi.Json.Unambiguous.{IsPlain}
use ai_account_payable_invoi.Domain.State.{approved}
use ai_account_payable_invoi.Domain.Export.{ExportPayload, contract_version}
use ai_account_payable_invoi.Domain.Export.Encoding.{Format, as_dict, to_json_bytes}
use ai_account_payable_invoi.Domain.Export.Signed.{IsInjective, to_json_bytes_iff}

-- Texts that show every part of a value.
abbrev show_digits : Int.ℤ → ℕ → Text
show_digits (Int.pos n) scale = 43 ∷ n ∷ scale ∷ []
show_digits (Int.negsuc n) scale = 45 ∷ n ∷ scale ∷ []

abbrev format : Format
format = record {
  show_uuid = λ i. i ∷ [];
  show_day = λ d. d ∷ [];
  show_amount = λ a. show_digits a.coefficient a.scale;
}

show_digits-injective :
    (x y : Int.ℤ) (k l : ℕ) → show_digits x k ≡ show_digits y l → (x ≡ y) × (k ≡ l)
show_digits-injective (Int.pos n) (Int.pos m) k l h = (cc, cc)
show_digits-injective (Int.pos n) (Int.negsuc m) k l h = ground arith
show_digits-injective (Int.negsuc n) (Int.pos m) k l h = ground arith
show_digits-injective (Int.negsuc n) (Int.negsuc m) k l h = (cc, cc)

format-IsInjective : IsInjective format
format-IsInjective = record {
  uuid = λ i j h. cc;
  day = λ i j h. cc;
  amount = λ (a b : Decimal) h.
      let (x, k) = show_digits-injective a.coefficient b.coefficient a.scale b.scale h in
      λ i. record { coefficient = x i; scale = k i };
}

abbrev export_of : ℕ → ExportPayload Text
export_of cents = record {
  contract_version = contract_version;
  invoice_id = 5;
  status = approved;
  supplier_name = some (text "Caf\"e");
  supplier_tax_id = none;
  invoice_number = some (text "INV-1");
  invoice_date = some 7;
  currency = some (text "EUR");
  subtotal = none;
  tax_amount = none;
  total = some (record { coefficient = Int.pos cents; scale = 2 });
  line_items = [];
  vendor_id = some 1;
  vendor_name = none;
  po_id = none;
  po_number = none;
  approved_by = some (text "ann");
  approved_reason = none;
  exported_at = text "now";
}

export_100-IsPlain : IsPlain (as_dict format (export_of 100))
unfolding IsPlain as_dict
export_100-IsPlain = omega arith

export_200-IsPlain : IsPlain (as_dict format (export_of 200))
unfolding IsPlain as_dict
export_200-IsPlain = omega arith

to_json_bytes_iff_example :
    (to_json_bytes format (export_of 100) ≡ to_json_bytes format (export_of 200))
    ↔ (export_of 100 ≡ export_of 200)
to_json_bytes_iff_example =
    to_json_bytes_iff format format-IsInjective (export_of 100) (export_of 200) refl refl
      export_100-IsPlain export_200-IsPlain
