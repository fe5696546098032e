-- ===== src/Services/Approval/Policy.antt =====
-- When the approval stage approves without a person, src/invoice_ops/services/approval.py.
use ai_account_payable_invoi.Prelude.{
  ℕ, ◌&&◌, ◌≡◌, refl, sym, ap, ◌∙◌, ◌↔◌, ◌⊎◌, true, Option, none, some, inl, inr, All,
}
use ai_account_payable_invoi.Domain.State.{validated, auto_approved, status_eq}
use ai_account_payable_invoi.Domain.Extraction.{critical_fields, lookup}
use ai_account_payable_invoi.Models
use ai_account_payable_invoi.Models.{Invoice, InvoiceMatch, Tables, Reason}
use ai_account_payable_invoi.Services.Outcome.{ok}
use ai_account_payable_invoi.Domain.Matching.{VendorMatchMethod, tax_id, exact_name, fuzzy_name}
use ai_account_payable_invoi.Domain.Approval.{ApprovalDecision}
use ai_account_payable_invoi.Domain.Approval.Laws.{decide_approval_iff, Clears}
use ai_account_payable_invoi.Services.Extraction.{latest_successful_extraction}
use ai_account_payable_invoi.Services.Matching.{latest_match}
use ai_account_payable_invoi.Services.Approval.{
  latest_validation, decision_for, approval_stage, vendor_identified, is_given, is_identified,
  has_order, confidences_in,
}
use ai_account_payable_invoi.Prelude.{arith}
use ai_account_payable_invoi.Services.Approval.Stage.{
  ApprovalRun, untouched, decided, approval_stage-ApprovalRun,
}

-- The match names a vendor, by a method that identifies one.
vendor_identified_iff :
    (m : InvoiceMatch)
    → (vendor_identified (some m) ≡ true) ↔ (
        ((i : ℕ) × (m.vendor_id ≡ some i))
        × ((m.vendor_match_method ≡ tax_id)
            ⊎ ((m.vendor_match_method ≡ exact_name) ⊎ (m.vendor_match_method ≡ fuzzy_name))))
unfolding vendor_identified
vendor_identified_iff m = by_values m.vendor_id m.vendor_match_method
  where
    by_values :
        (v : Option ℕ) (method : VendorMatchMethod)
        → ((is_given v && is_identified method) ≡ true) ↔ (
            ((i : ℕ) × (v ≡ some i))
            × ((method ≡ tax_id) ⊎ ((method ≡ exact_name) ⊎ (method ≡ fuzzy_name))))
    by_values none method = (λ e. cc, λ ((i, e), _). cc)
    by_values (some i) tax_id = (λ _. ((i, refl), inl refl), λ _. refl)
    by_values (some i) exact_name = (λ _. ((i, refl), inr (inl refl)), λ _. refl)
    by_values (some i) fuzzy_name = (λ _. ((i, refl), inr (inr refl)), λ _. refl)
    by_values (some i) method = (λ e. ground arith, λ e. ground arith)

has_order_iff : (m : InvoiceMatch) → (has_order (some m) ≡ true) ↔ ((i : ℕ) × (m.po_id ≡ some i))
unfolding has_order
has_order_iff m = by_value m.po_id
  where
    by_value : (o : Option ℕ) → (is_given o ≡ true) ↔ ((i : ℕ) × (o ≡ some i))
    by_value none = (λ e. cc, λ (i, e). cc)
    by_value (some i) = (λ _. (i, refl), λ _. refl)

-- What an automatic approval rests on.
pub record PolicyHolds (v : Invoice) : Type 0 where
  pub validation : Models.Validation
  pub extraction : Models.Extraction
  pub match : InvoiceMatch
  pub last_validation : latest_validation v ≡ some validation
  pub last_extraction : latest_successful_extraction v ≡ some extraction
  pub last_match : latest_match v ≡ some match
  pub rules_passed : validation.passed ≡ true
  pub vendor : ℕ
  pub vendor_known : match.vendor_id ≡ some vendor
  pub by_method :
      (match.vendor_match_method ≡ tax_id)
      ⊎ ((match.vendor_match_method ≡ exact_name) ⊎ (match.vendor_match_method ≡ fuzzy_name))
  pub order : ℕ
  pub order_known : match.po_id ≡ some order
  pub confident :
      All (λ f. Clears (lookup f (confidences_in extraction.field_confidence))) critical_fields

some_both {ℓ} : {A : Type ℓ} {o : Option A} {a b : A} → o ≡ some a → o ≡ some b → a ≡ b
some_both p q = cc

known_match :
    (o : Option InvoiceMatch) → vendor_identified o ≡ true → (m : InvoiceMatch) × (o ≡ some m)
unfolding vendor_identified
known_match none h = cc
known_match (some m) h = (m, refl)

-- On a validated invoice, a run of the stage that returns leaves it AUTO_APPROVED exactly when
-- the policy holds: the latest validation passed, the latest match identifies the vendor and
-- names an order, and the latest successful extraction is confident on every critical field.
pub approval_stage_auto_iff :
    (v w : Invoice) (row : Option ApprovalDecision)
    → v.status ≡ validated
    → approval_stage v ≡ ok (row, w)
    → (w.status ≡ auto_approved) ↔ PolicyHolds v
unfolding decision_for
approval_stage_auto_iff v w row at h = by_run (approval_stage-ApprovalRun v w row h)
  where
    by_run : ApprovalRun v w row → (w.status ≡ auto_approved) ↔ PolicyHolds v
    by_run (untouched not_at _ _) = absurd (not_at at)
    by_run (decided x e _ qx qe row_is left) =
        let confidences = confidences_in e.field_confidence in
        let policy =
          decide_approval_iff x.passed (vendor_identified (latest_match v))
            (has_order (latest_match v)) confidences in
        (
          λ auto.
              let (passed, vendor, order, sure) = policy.0 (sym left.ends ∙ auto) in
              let (m, qm) = known_match (latest_match v) vendor in
              let ((i, named), method) =
                (vendor_identified_iff m).0 (ap vendor_identified (sym qm) ∙ vendor) in
              let (o, ordered) = (has_order_iff m).0 (ap has_order (sym qm) ∙ order) in
              record {
                validation = x;
                extraction = e;
                match = m;
                last_validation = qx;
                last_extraction = qe;
                last_match = qm;
                rules_passed = passed;
                vendor = i;
                vendor_known = named;
                by_method = method;
                order = o;
                order_known = ordered;
                confident = sure;
              },
          λ holds.
              let x_is : holds.validation ≡ x = some_both holds.last_validation qx in
              let e_is : holds.extraction ≡ e = some_both holds.last_extraction qe in
              let m = holds.match in
              let known : (i : ℕ) × (m.vendor_id ≡ some i) = (holds.vendor, holds.vendor_known) in
              left.ends
              ∙ policy.1 (
                ap (λ y. Models.Validation.passed y) (sym x_is) ∙ holds.rules_passed,
                ap vendor_identified holds.last_match
                    ∙ (vendor_identified_iff m).1 (known, holds.by_method),
                ap has_order holds.last_match
                    ∙ (has_order_iff m).1 (holds.order, holds.order_known),
                rw (← e_is) holds.confident,
              ),
        )
