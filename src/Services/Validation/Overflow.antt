-- ===== src/Services/Validation/Overflow.antt =====
-- The decimal context and the validation stage: what the stage returns is what exact arithmetic gives.
use ai_account_payable_invoi.Prelude.{
  arith, ◌≡◌, refl, Bool, Bool-cases, false, ◌&&◌, Option, Option-cases, inl, inr,
}
use ai_account_payable_invoi.Text.{Unicode}
use ai_account_payable_invoi.Domain.Validation.{ValidationInput}
use ai_account_payable_invoi.Models
use ai_account_payable_invoi.Models.{Invoice, Tables}
use ai_account_payable_invoi.Services.Outcome.{ok}
use ai_account_payable_invoi.Services.Matching.{extracted_result}
use ai_account_payable_invoi.Services.Validation.{validation_stage, checked_stage, overflows_at}

and_false : (b c : Bool) → c ≡ false → (b && c) ≡ false
and_false b c h = ground arith

module _ (u : Unicode) (overflows : ValidationInput → Bool) (tables : Tables) where
  pub overflows_at-none :
      (v : Invoice)
      → ((inp : ValidationInput) → overflows inp ≡ false)
      → overflows_at u overflows tables v ≡ false
  unfolding overflows_at
  overflows_at-none v h = elim (Option-cases (extracted_result v)) [
    | inl q ↦ rw (overflows_at, q) refl
    | inr (r, q) ↦ rw (overflows_at, q) (and_false _ _ (h _))
  ]

  pub checked_stage-eq-ok :
      (v w : Invoice) (row : Option Models.Validation)
      → checked_stage u overflows tables v ≡ ok (row, w)
      → validation_stage u tables v ≡ ok (row, w)
  unfolding checked_stage
  checked_stage-eq-ok v w row h = elim (Bool-cases (overflows_at u overflows tables v)) [
    | inl y ↦ let e = rw (checked_stage, y) at h in cc
    | inr n ↦ rw (checked_stage, n) at h
  ]
