-- ===== src/Services/Validation/Duplicates.antt =====
-- What the search for duplicates finds, src/invoice_ops/services/validation.py.
use ai_account_payable_invoi.Prelude.{
  ℕ, ◌≡◌, ◌≢◌, ◌↔◌, ◌⊎◌, refl, ap, Bool, true, false, ◌&&◌, Option, none, some, List, [], ◌∷◌, any,
  All, All-map, arith, nat_eq, list_eq, list_beq_iff, nat_beq_iff,
}
use ai_account_payable_invoi.Text.{Text, Unicode}
use ai_account_payable_invoi.Domain.State.{failed, rejected, status_eq}
use ai_account_payable_invoi.Models.{Invoice, InvoiceMatch}
use ai_account_payable_invoi.Services.Matching.{extracted_result}
use ai_account_payable_invoi.Services.Validation.{
  shares_vendor, is_candidate, find_duplicate_candidates, normal_number, same_number,
  extracted_number, equals_some,
}

-- One of the matches names the vendor.
abbrev pub HasVendor : ℕ → List InvoiceMatch → Type 0
HasVendor vendor [] = ⊥
HasVendor vendor (m ∷ ms) = (m.vendor_id ≡ some vendor) ⊎ HasVendor vendor ms

-- A number that is given, not empty, and the same without case and outer white space.
abbrev pub SameNumber : Unicode → Text → Option Text → Type 0
SameNumber u number none = ⊥
SameNumber u number (some []) = ⊥
SameNumber u number (some (c ∷ t)) = normal_number u (c ∷ t) ≡ normal_number u number

-- `other` is a live invoice of the vendor, not `v` itself, with the same number.
pub record IsDuplicate (u : Unicode) (v : Invoice) (vendor : ℕ) (number : Text) (other : Invoice)
    : Type 0 where
  pub another : other.id ≢ v.id
  pub same_vendor : HasVendor vendor other.matches
  pub not_failed : other.status ≢ failed
  pub not_rejected : other.status ≢ rejected
  pub same : SameNumber u number (extracted_number (extracted_result other))

equals_some_iff : (o : Option ℕ) (vendor : ℕ) → (equals_some o vendor ≡ true) ↔ (o ≡ some vendor)
equals_some_iff none vendor = (λ e. cc, λ e. cc)
equals_some_iff (some w) vendor =
    (λ e. ap some ((nat_beq_iff w vendor).0 e), λ e. (nat_beq_iff w vendor).1 cc)

vendor_named_iff :
    (vendor : ℕ) (ms : List InvoiceMatch)
    → (any (λ m. equals_some (InvoiceMatch.vendor_id m) vendor) ms ≡ true) ↔ HasVendor vendor ms
vendor_named_iff vendor [] = (λ e. cc, λ e. absurd e)
vendor_named_iff vendor (m ∷ ms) =
    ground (arith, equals_some_iff m.vendor_id vendor, vendor_named_iff vendor ms)

module _ (u : Unicode) where
  same_number_iff :
      (number : Text) (o : Option Text)
      → (same_number u (normal_number u number) o ≡ true) ↔ SameNumber u number o
  same_number_iff number none = (λ e. cc, λ e. absurd e)
  same_number_iff number (some []) = (λ e. cc, λ e. absurd e)
  same_number_iff number (some (c ∷ t)) =
      list_beq_iff (normal_number u (c ∷ t)) (normal_number u number)

  abbrev counted : Invoice → ℕ → Text → Invoice → Bool
  counted v vendor number other =
      shares_vendor v.id vendor other && is_candidate u (normal_number u number) other

  counted_iff :
      (v : Invoice) (vendor : ℕ) (number : Text) (other : Invoice)
      → (counted v vendor number other ≡ true) ↔ IsDuplicate u v vendor number other
  unfolding shares_vendor is_candidate
  counted_iff v vendor number other =
      let a = vendor_named_iff vendor other.matches in
      let b = nat_beq_iff other.id v.id in
      let c = status_eq.beq_iff other.status failed in
      let d = status_eq.beq_iff other.status rejected in
      let e = same_number_iff number (extracted_number (extracted_result other)) in
      (
        λ h. record {
          another = ground (arith, b, h);
          same_vendor = ground (arith, a, h);
          not_failed = ground (arith, c, h);
          not_rejected = ground (arith, d, h);
          same = ground (arith, e, h);
        },
        λ h.
            ground (
              arith, a, b, c, d, e, h.another, h.same_vendor, h.not_failed, h.not_rejected, h.same,
            ),
      )

  found-nil_iff :
      (v : Invoice) (vendor : ℕ) (number : Text) (invoices : List Invoice)
      → (find_duplicate_candidates u invoices v vendor number ≡ [])
        ↔ All (λ o. counted v vendor number o ≡ false) invoices
  unfolding find_duplicate_candidates
  found-nil_iff v vendor number [] = (λ e. tt, λ e. refl)
  found-nil_iff v vendor number (x ∷ xs) = ground (arith, found-nil_iff v vendor number xs)

  not_counted_iff :
      (v : Invoice) (vendor : ℕ) (number : Text) (o : Invoice)
      → (counted v vendor number o ≡ false) ↔ (¬ (IsDuplicate u v vendor number o))
  not_counted_iff v vendor number o = ground (arith, counted_iff v vendor number o)

  -- The search for duplicates finds nothing exactly when no invoice is one: another invoice,
  -- with a match for the vendor, not FAILED or REJECTED, whose latest successful extraction
  -- gives the same number, not empty, up to case and outer white space.
  pub find_duplicate_candidates_iff :
      (v : Invoice) (vendor : ℕ) (number : Text) (invoices : List Invoice)
      → (find_duplicate_candidates u invoices v vendor number ≡ [])
        ↔ All (λ o. ¬ (IsDuplicate u v vendor number o)) invoices
  find_duplicate_candidates_iff v vendor number invoices =
      let found = found-nil_iff v vendor number invoices in
      (
        λ e. All-map (λ o. (not_counted_iff v vendor number o).0) invoices (found.0 e),
        λ h. found.1 (All-map (λ o. (not_counted_iff v vendor number o).1) invoices h),
      )
