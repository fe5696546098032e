-- ===== src/Domain/Approval/Laws.antt =====
-- When the policy approves.
use Prim.Native.String.{String}
use ai_account_payable_invoi.Prelude.{
  inl, inr, ◌⊎◌, ◌≡◌, ◌↔◌, refl, Bool, true, false, Option, none, some, List, [], ◌∷◌, All, arith,
  keep, ◌++◌, keep-nil_iff, All-map,
}
use ai_account_payable_invoi.Prelude.Int.{pos, ◌≤ℤ◌}
use ai_account_payable_invoi.Float.{Float, finite, infinity, negative_infinity, nan, lt_float}
use ai_account_payable_invoi.Domain.State.{auto_approved, needs_review}
use ai_account_payable_invoi.Domain.Extraction.{Confidences, critical_fields, lookup}
use ai_account_payable_invoi.Domain.Approval.{
  auto_approve_confidence_threshold, is_low, decide_approval, ReviewReason, validation_failed,
  vendor_not_identified, no_order_matched, reason_unless, low_reasons, outcome_of,
}

-- The confidence of a field clears the gate: it was given, and it is at least 0.75 or no number.
abbrev pub Clears : Option Float → Type 0
Clears none = ⊥
Clears (some nan) = Unit
Clears (some infinity) = Unit
Clears (some negative_infinity) = ⊥
Clears (some (finite c)) = auto_approve_confidence_threshold ≤ℤ c

zero_is_low : lt_float (finite (pos 0)) (finite auto_approve_confidence_threshold) ≡ true
unfolding auto_approve_confidence_threshold
zero_is_low = refl

is_low_iff : (d : Confidences) (f : String) → (is_low d f ≡ false) ↔ Clears (lookup f d)
unfolding is_low lookup
is_low_iff d f = by_confidence (lookup f d)
  where
    by_confidence :
        (c : Option Float)
        → (lt_float
              (elim c [ none ↦ finite (pos 0) | some x ↦ x ])
              (finite auto_approve_confidence_threshold)
            ≡ false)
          ↔ Clears c
    by_confidence none = ground (arith, zero_is_low)
    by_confidence (some nan) = ground arith
    by_confidence (some infinity) = ground arith
    by_confidence (some negative_infinity) = ground arith
    by_confidence (some (finite c)) = ground arith

found : Bool → Bool → Bool → List String → List ReviewReason
found v w p low =
    reason_unless v validation_failed
    ++ (reason_unless w vendor_not_identified
        ++ (reason_unless p no_order_matched ++ low_reasons low))

found-nil_iff :
    (v w p : Bool) (low : List String)
    → (outcome_of (found v w p low) ≡ auto_approved)
      ↔ ((v ≡ true) × (w ≡ true) × (p ≡ true) × (low ≡ []))
unfolding found
found-nil_iff v w p [] = ground arith
found-nil_iff v w p (f ∷ low) = ground arith

-- The policy approves exactly when the rules passed, the vendor is identified, an order was
-- found, and every critical field has a confidence that is at least 0.75, or NaN.
pub decide_approval_iff :
    (validation_passed vendor_identified has_po : Bool) (d : Confidences)
    → let outcome = (decide_approval validation_passed vendor_identified has_po d).outcome in
      (outcome ≡ auto_approved) ↔ (
        (validation_passed ≡ true)
        × (vendor_identified ≡ true)
        × (has_po ≡ true)
        × All (λ f. Clears (lookup f d)) critical_fields)
unfolding decide_approval found
decide_approval_iff v w p d =
    let low = keep-nil_iff (is_low d) critical_fields in
    let empty = found-nil_iff v w p (keep (is_low d) critical_fields) in
    (
      λ e.
          let (a, b, c, l) = empty.0 e in
          (a, b, c, All-map (λ f. (is_low_iff d f).0) critical_fields (low.0 l)),
      λ (a, b, c, h).
          empty.1 (a, b, c, low.1 (All-map (λ f. (is_low_iff d f).1) critical_fields h)),
    )

outcome_of-cases :
    (rs : List ReviewReason) → (outcome_of rs ≡ auto_approved) ⊎ (outcome_of rs ≡ needs_review)
outcome_of-cases [] = inl refl
outcome_of-cases (r ∷ rs) = inr refl

pub decide_approval-cases :
    (validation_passed vendor_identified has_po : Bool) (d : Confidences)
    → let outcome = (decide_approval validation_passed vendor_identified has_po d).outcome in
      (outcome ≡ auto_approved) ⊎ (outcome ≡ needs_review)
unfolding decide_approval
decide_approval-cases v w p d = outcome_of-cases _
