-- ===== src/Domain/Approval.antt =====
-- The approval policy, src/invoice_ops/domain/approval.py. A reason is a constructor for each text.
pub mod Laws
use Prim.Native.String.{String}
use ai_account_payable_invoi.Prelude.{
  ℕ, ◌*◌, ◌^◌, Bool, true, false, not, Option, none, some, List, [], ◌∷◌, ◌++◌, keep, if◌then◌else◌,
}
use ai_account_payable_invoi.Prelude.Int.{ℤ, pos}
use ai_account_payable_invoi.Float.{Float, finite, lt_float, zero_float}
use ai_account_payable_invoi.Domain.State.{InvoiceStatus, needs_review, auto_approved}
use ai_account_payable_invoi.Domain.Extraction.{Confidences, critical_fields, lookup}

-- The double 0.75.
unfoldable pub auto_approve_confidence_threshold : ℤ
auto_approve_confidence_threshold = pos (3 * 2 ^ 1072)

pub data ReviewReason : Type 0 where
  validation_failed vendor_not_identified no_order_matched : ReviewReason
  low_confidence : List String → ReviewReason

pub record ApprovalDecision : Type 0 where
  pub outcome : InvoiceStatus
  pub reasons : List ReviewReason

-- `d.get(f, 0.0)`
unfoldable pub confidence_of : Confidences → String → Float
unfolding lookup
confidence_of d f = elim (lookup f d) [ none ↦ zero_float | some c ↦ c ]

unfoldable pub is_low : Confidences → String → Bool
unfolding confidence_of
is_low d f = lt_float (confidence_of d f) (finite auto_approve_confidence_threshold)

abbrev low_reasons : List String → List ReviewReason
low_reasons [] = []
low_reasons (f ∷ fs) = low_confidence (f ∷ fs) ∷ []

abbrev outcome_of : List ReviewReason → InvoiceStatus
outcome_of [] = auto_approved
outcome_of (_ ∷ _) = needs_review

abbrev reason_unless : Bool → ReviewReason → List ReviewReason
reason_unless b r = if b then [] else r ∷ []

unfoldable pub decide_approval : Bool → Bool → Bool → Confidences → ApprovalDecision
unfolding is_low
decide_approval validation_passed vendor_identified has_po field_confidence =
    let low = keep (is_low field_confidence) critical_fields in
    let found =
      reason_unless validation_passed validation_failed
      ++ (reason_unless vendor_identified vendor_not_identified
          ++ (reason_unless has_po no_order_matched ++ low_reasons low)) in
    record { outcome = outcome_of found; reasons = found }
