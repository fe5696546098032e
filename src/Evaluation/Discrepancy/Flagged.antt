-- ===== src/Evaluation/Discrepancy/Flagged.antt =====
-- The scenarios that are flagged whatever the fixture is, and what the exit code says.
use ai_account_payable_invoi.Prelude.{
  ℕ, ◌≡◌, ◌≢◌, ◌↔◌, refl, ap, ◌⊎◌, inl, inr, Bool, true, false, not, ◌&&◌, Option, none, some, List,
  [], ◌∷◌, All, ◌==◌, nat_beq_iff, string_eq, list_eq, nat_eq, list_beq_iff, if◌then◌else◌, arith,
}
use ai_account_payable_invoi.Text.{Text, Unicode, text}
use ai_account_payable_invoi.Float.{Float}
use ai_account_payable_invoi.Decimal.{Decimal}
use ai_account_payable_invoi.Domain.State.{needs_review, approved, status_eq}
use ai_account_payable_invoi.Domain.Extraction.{ExtractedInvoice, Confidences}
use ai_account_payable_invoi.Domain.Matching.{VendorIdentity, PoIdentity, match_po, normalize_code}
use ai_account_payable_invoi.Domain.Validation.Duplicate.{duplicate_blocks}
use Prim.Native.String.{String}
use ai_account_payable_invoi.Domain.Approval.{decide_approval}
use ai_account_payable_invoi.Domain.Approval.Laws.{decide_approval_iff, decide_approval-cases}
use ai_account_payable_invoi.Evaluation.Discrepancy.{
  same_number, duplicates_of, needs_review_of, scenarios, shown, seeded_number, seeded_vendor,
  seeded_order, or_text, or_zero, Scenario, Tally, code_of, tally_one, tally_from, exit_code, tally,
}

-- A decision that lacks one of the conditions is a review.
refers :
    (passed identified has_po : Bool) (d : Confidences)
    → (passed ≡ false) ⊎ (has_po ≡ false)
    → ((decide_approval passed identified has_po d).outcome == needs_review) ≡ true
refers passed identified has_po d lacks = elim (decide_approval-cases passed identified has_po d) [
  | inr review ↦ (status_eq.beq_iff _ needs_review).1 review
  | inl auto ↦
      let (a, _, c, _) = (decide_approval_iff passed identified has_po d).0 auto in
      elim lacks [ inl f ↦ cc | inr f ↦ cc ]
]

same_number_refl : (number : Option Text) → same_number number number ≡ true
same_number_refl none = refl
same_number_refl (some t) = (list_beq_iff t t).1 refl

module _ (u : Unicode) (ratio : Text → Text → Float) (uuid4 : ℕ) where
  no_po_flagged :
      (v : ExtractedInvoice) (vendor : VendorIdentity) (po : Option PoIdentity) (total : Decimal)
      (currency : Text) (others : List ExtractedInvoice)
      → v.purchase_order_number ≡ none
      → needs_review_of u ratio uuid4 v vendor po total currency others ≡ true
  unfolding needs_review_of match_po normalize_code
  no_po_flagged v vendor po total currency others e =
      rw (needs_review_of, match_po, normalize_code, e) (refers _ _ _ _ (inr refl))

  itself :
      (v : ExtractedInvoice) (others : List ExtractedInvoice)
      → duplicates_of uuid4 v.invoice_number (v ∷ others)
        ≡ (record {
          invoice_id = uuid4;
          invoice_number = shown v.invoice_number;
          status = approved;
        })
          ∷ duplicates_of uuid4 v.invoice_number others
  unfolding duplicates_of
  itself v others = rw (same_number_refl v.invoice_number) refl

  duplicate_flagged :
      (v : ExtractedInvoice) (vendor : VendorIdentity) (po : Option PoIdentity) (total : Decimal)
      (currency : Text) (others : List ExtractedInvoice)
      → v.invoice_number ≢ some []
      → needs_review_of u ratio uuid4 v vendor po total currency (v ∷ others) ≡ true
  unfolding needs_review_of
  duplicate_flagged v vendor po total currency others n = refers _ _ _ _ (
      inl (
        ap not (
          duplicate_blocks u _
            (record {
              invoice_id = uuid4;
              invoice_number = shown v.invoice_number;
              status = approved;
            })
            (duplicates_of uuid4 v.invoice_number others) (itself v others) n)))

-- What a scenario of a name gave.
abbrev pub outcome_in : String → List Scenario → Option Bool
outcome_in name [] = none
outcome_in name (s ∷ ss) = if s.name == name then some s.actual else outcome_in name ss

module _ (u : Unicode) (ratio : Text → Text → Float) (uuid4 : ℕ → ℕ) where
  -- Unless the invoice number of a fixture is an empty text, its duplicate is judged to need a
  -- review, and so is the fixture without an order number, whatever else it says.
  pub scenarios_flagged :
      (name : Text) (raw : ExtractedInvoice)
      → raw.invoice_number ≢ some []
      → let found = scenarios u ratio uuid4 name raw in
        (outcome_in "duplicate_invoice" found ≡ some true) × (outcome_in "no_po" found ≡ some true)
  unfolding scenarios
  scenarios_flagged name raw n = (
    ap some (
        duplicate_flagged u ratio (uuid4 2)
          (record raw { purchase_order_number = some (seeded_number uuid4 name raw) })
          (seeded_vendor uuid4 raw) (seeded_order uuid4 name raw) (or_zero raw.total)
          (or_text raw.currency (text "EUR")) [] n),
    ap some (
        no_po_flagged u ratio (uuid4 2) (record raw { purchase_order_number = none })
          (seeded_vendor uuid4 raw) (seeded_order uuid4 name raw) (or_zero raw.total)
          (or_text raw.currency (text "EUR")) [] refl),
  )

-- A discrepancy that was planted and not found.
abbrev pub is_missed : Scenario → Bool
is_missed s = s.expected && not s.actual

tally_from-fn :
    (t : Tally) (ss : List Scenario)
    → ((tally_from t ss).fn ≡ 0) ↔ ((t.fn ≡ 0) × All (λ s. is_missed s ≡ false) ss)
unfolding tally_from
tally_from-fn t [] = (λ e. (e, tt), λ (e, _). e)
tally_from-fn t (s ∷ ss) = by_case s.expected s.actual (λ r. tally_from-fn r ss)
  where
    by_case :
        (expected actual : Bool)
        → ((r : Tally)
            → ((tally_from r ss).fn ≡ 0) ↔ ((r.fn ≡ 0) × All (λ x. is_missed x ≡ false) ss))
        → ((tally_from (tally_one expected actual t) ss).fn ≡ 0)
          ↔ ((t.fn ≡ 0) × (((expected && not actual) ≡ false) × All (λ x. is_missed x ≡ false) ss))
    by_case true true rest =
        let (to, from) = rest (tally_one true true t) in
        (λ e. ((to e).0, (refl, (to e).1)), λ (a, (_, c)). from (a, c))
    by_case false true rest =
        let (to, from) = rest (tally_one false true t) in
        (λ e. ((to e).0, (refl, (to e).1)), λ (a, (_, c)). from (a, c))
    by_case false false rest =
        let (to, from) = rest (tally_one false false t) in
        (λ e. ((to e).0, (refl, (to e).1)), λ (a, (_, c)). from (a, c))
    by_case true false rest =
        let (to, from) = rest (tally_one true false t) in
        (λ e. let one = (to e).0 in absurd (omega (arith, one)), λ (_, (f, _)). cc)

-- The exit code says whether a discrepancy was missed.
pub exit_code_fn :
    (s : Scenario) (ss : List Scenario) → (exit_code (s ∷ ss) ≡ 0) ↔ ((tally (s ∷ ss)).fn ≡ 0)
unfolding exit_code
exit_code_fn s ss =
    let fn = (tally (s ∷ ss)).fn in (zero_code fn, λ e. rw ((nat_beq_iff fn 0).1 e) refl)
  where
    zero_code : (n : ℕ) → code_of n ≡ 0 → n ≡ 0
    zero_code n e = ground (arith, e)

-- The exit code is 0 exactly when there were scenarios and none was missed.
pub exit_code_iff :
    (s : Scenario) (ss : List Scenario)
    → (exit_code (s ∷ ss) ≡ 0) ↔ All (λ x. is_missed x ≡ false) (s ∷ ss)
exit_code_iff s ss =
    let (to, from) = tally_from-fn (record { tp = 0; fp = 0; tn = 0; fn = 0 }) (s ∷ ss) in
    let (missed, all) = exit_code_fn s ss in (λ e. (to (missed e)).1, λ h. all (from (refl, h)))
