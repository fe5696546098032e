-- ===== src/Domain/Validation/Duplicate.antt =====
-- A duplicate always blocks: by its own rule, or because the number is missing.
use ai_account_payable_invoi.Prelude.{
  ◌≡◌, ◌≢◌, refl, ap, ◌∙◌, Bool, true, false, ◌||◌, Option, none, some, List, [], ◌∷◌, arith,
}
use Prim.Native.String.{String}
use ai_account_payable_invoi.Text.{Text, Unicode}
use ai_account_payable_invoi.Domain.Validation.{
  ValidationInput, DuplicateCandidate, run_rules, has_blocking_failure, blocks, is_nil,
  unless_present, missing_required, rule_required_fields_present, rule_arithmetic_consistency,
  rule_line_items_sum_to_subtotal, rule_po_amount_tolerance, rule_po_currency_match,
  rule_po_vendor_mismatch, rule_duplicate_invoice_number, duplicate_check, duplicate_failure,
}

any_at_first : (a b : Bool) → a ≡ true → (a || b) ≡ true
any_at_first a b h = ground (arith, h)

any_at_last :
    (a b c d e f g : Bool)
    → g ≡ true
    → (a || (b || (c || (d || (e || (f || (g || false))))))) ≡ true
any_at_last a b c d e f g h = ground (arith, h)

number_blocks :
    (number : Option Text) (c : DuplicateCandidate) (cs : List DuplicateCandidate)
    → number ≢ some []
    → number ≢ none
    → blocks (duplicate_check number (c ∷ cs)) ≡ true
unfolding duplicate_check duplicate_failure
number_blocks none c cs n m = absurd (m refl)
number_blocks (some []) c cs n m = absurd (n refl)
number_blocks (some (t ∷ ts)) c cs n m = refl

still_absent :
    (name : String) (o : Option Text) (a : String) (rest : List String)
    → is_nil (unless_present name o (a ∷ rest)) ≡ false
still_absent name none a rest = refl
still_absent name (some t) a rest = refl

required_blocks :
    (inp : ValidationInput)
    → inp.invoice.invoice_number ≡ none
    → blocks (rule_required_fields_present inp) ≡ true
unfolding rule_required_fields_present missing_required
required_blocks inp e =
    rw
      (
        rule_required_fields_present,
        missing_required,
        e,
        still_absent "supplier_name" inp.invoice.supplier_name "invoice_number" _,
      )
      refl

module _ (u : Unicode) (inp : ValidationInput) (c : DuplicateCandidate)
    (cs : List DuplicateCandidate) (found : inp.duplicate_candidates ≡ c ∷ cs) where
  pub duplicate_blocks :
      inp.invoice.invoice_number ≢ some [] → has_blocking_failure (run_rules u inp) ≡ true
  unfolding has_blocking_failure run_rules rule_duplicate_invoice_number
  duplicate_blocks n = by_number inp.invoice.invoice_number refl
    where
      by_number :
          (number : Option Text)
          → inp.invoice.invoice_number ≡ number
          → has_blocking_failure (run_rules u inp) ≡ true
      by_number none e =
          any_at_first (blocks (rule_required_fields_present inp)) _ (required_blocks inp e)
      by_number (some t) e =
          any_at_last (blocks (rule_required_fields_present inp))
            (blocks (rule_arithmetic_consistency inp))
            (blocks (rule_line_items_sum_to_subtotal inp)) (blocks (rule_po_amount_tolerance inp))
            (blocks (rule_po_currency_match u inp)) (blocks (rule_po_vendor_mismatch inp))
            (blocks (rule_duplicate_invoice_number inp))
            (ap (λ l. blocks (duplicate_check inp.invoice.invoice_number l)) found
              ∙ number_blocks inp.invoice.invoice_number c cs n (λ q. cc (e, q)))
