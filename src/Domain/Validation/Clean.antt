-- ===== src/Domain/Validation/Clean.antt =====
-- What the rules demand of an invoice, over whole numbers of 10 ^ (-k) currency units: `k` is any
-- scale that is fine enough for the amounts, and is at least that of the tolerance.
use ai_account_payable_invoi.Prelude.{ℕ, ◌*◌, ◌^◌, ◌≤◌, ◌≡◌, ◌⊎◌, Option, none, some, List, [], ◌∷◌}
use ai_account_payable_invoi.Prelude.Int
use ai_account_payable_invoi.Prelude.Int.{◌+ℤ◌, ◌-ℤ◌, ◌≤ℤ◌}
use ai_account_payable_invoi.Text.{Text, Unicode}
use ai_account_payable_invoi.Decimal.{Decimal, ticks}
use ai_account_payable_invoi.Domain.Validation.{
  PoSnapshot, DuplicateCandidate, ValidationInput, normal_currency,
}

abbrev pub Present {ℓ} : {A : Type ℓ} → Option A → Type 0
Present none = ⊥
Present (some _) = Unit

abbrev pub FitsScale : ℕ → Option Decimal → Type 0
FitsScale k none = Unit
FitsScale k (some d) = d.scale ≤ k

abbrev pub OrderFits : ℕ → Option PoSnapshot → Type 0
OrderFits k none = Unit
OrderFits k (some order) = order.total.scale ≤ k

-- The amounts that the blocking rules read have at most `k` decimals.
pub record IsFine (k : ℕ) (inp : ValidationInput) : Type 0 where
  pub cents : 2 ≤ k
  pub subtotal_fits : FitsScale k inp.invoice.subtotal
  pub tax_fits : FitsScale k inp.invoice.tax_amount
  pub total_fits : FitsScale k inp.invoice.total
  pub order_fits : OrderFits k inp.matched_po

-- Two amounts in ticks differ by at most 0.02.
abbrev pub Close : ℕ → Int.ℤ → Int.ℤ → Type 0
Close k a b = Int.abs (a -ℤ b) * 100 ≤ 2 * 10 ^ k

abbrev pub Balances : ℕ → Option Decimal → Option Decimal → Option Decimal → Type 0
Balances k (some subtotal) (some tax) (some total) =
    Close k (ticks k subtotal +ℤ ticks k tax) (ticks k total)
Balances k _ _ _ = Unit

-- Off by at most 2 % of the order, or the order's total is not positive.
abbrev pub KeepsToOrder : ℕ → Option PoSnapshot → Option Decimal → Type 0
KeepsToOrder k (some order) (some total) =
    (ticks k order.total ≤ℤ Int.pos 0)
    ⊎ (Int.abs (ticks k total -ℤ ticks k order.total) * 100
        ≤ Int.pos_part (ticks k order.total) * 2)
KeepsToOrder k _ _ = Unit

abbrev pub SameCurrency : Unicode → Option PoSnapshot → Option Text → Type 0
SameCurrency u (some order) (some (c ∷ cs)) =
    normal_currency u (c ∷ cs) ≡ normal_currency u order.currency
SameCurrency u _ _ = Unit

abbrev pub SameVendor : Option PoSnapshot → Option ℕ → Type 0
SameVendor (some order) (some vendor) = order.vendor_id ≡ vendor
SameVendor _ _ = Unit

abbrev pub NoDuplicate : Option Text → List DuplicateCandidate → Type 0
NoDuplicate (some (c ∷ number)) found = found ≡ []
NoDuplicate _ found = Unit

-- The invoice may be approved as far as its numbers go.
pub record IsClean (u : Unicode) (k : ℕ) (inp : ValidationInput) : Type 0 where
  pub has_supplier : Present inp.invoice.supplier_name
  pub has_number : Present inp.invoice.invoice_number
  pub has_date : Present inp.invoice.invoice_date
  pub has_total : Present inp.invoice.total
  pub balances : Balances k inp.invoice.subtotal inp.invoice.tax_amount inp.invoice.total
  pub keeps_to_order : KeepsToOrder k inp.matched_po inp.invoice.total
  pub same_currency : SameCurrency u inp.matched_po inp.invoice.currency
  pub same_vendor : SameVendor inp.matched_po inp.matched_vendor_id
  pub no_duplicate : NoDuplicate inp.invoice.invoice_number inp.duplicate_candidates
