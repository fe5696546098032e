-- ===== src/Services/Matching/Stage.antt =====
-- What the matching stage does to an invoice, on every branch.
use ai_account_payable_invoi.Prelude.{
  ◌≡◌, ◌≢◌, refl, sym, ap, true, false, Bool-cases, Option, none, some, [], ◌∷◌, ◌++◌, inl, inr,
  Option-cases, ◌==◌,
}
use ai_account_payable_invoi.Text.{Text, Unicode}
use ai_account_payable_invoi.Float.{Float}
use ai_account_payable_invoi.Domain.State.{
  extracted, matching, validating, failed, status_eq, can_transition,
}
use ai_account_payable_invoi.Domain.Extraction.{ExtractionResult, ExtractedInvoice}
use ai_account_payable_invoi.Models.{Invoice, InvoiceMatch, Tables, Reason}
use ai_account_payable_invoi.Services.Outcome.{ok, raised, >>=-eq-ok, illegal_transition}
use ai_account_payable_invoi.Services.Lifecycle.{advance, system}
use ai_account_payable_invoi.Services.Lifecycle.History.{
  Extends-trans, advance_iff, moved, moved-Extends, ok-injective, after_move, moved_with, Leaves,
  absurd_test,
}
use ai_account_payable_invoi.Services.Matching.{
  extracted_result, give_up, match_row, record_match, matching_stage,
}

-- A stage that gives up fails the invoice, where the lifecycle has that move, and raises elsewhere.
pub give_up-Leaves {ℓ} :
    {A : Type ℓ} (v w : Invoice) (why : Reason) (row : Option A)
    → give_up v why ≡ ok (row, w)
    → (can_transition v.status failed ≡ true)
      × (row ≡ none)
      × Leaves v w failed v.extractions v.matches v.validations v.exports
unfolding give_up
give_up-Leaves v w why row e =
    let (legal, row_is, w_is) = after_move _ w failed system (some why) e in
    (
      legal,
      sym row_is,
      rw (← w_is) (record {
        logged = moved_with v _ failed system (some why) refl refl refl refl legal;
        ends = refl;
        extractions = refl;
        matches = refl;
        validations = refl;
        exports = refl;
      }),
    )

pub give_up-raises {ℓ} :
    {A : Type ℓ} (v : Invoice) (why : Reason)
    → can_transition v.status failed ≡ false
    → give_up {A = A} v why ≡ raised (illegal_transition v.status failed)
unfolding give_up advance
give_up-raises v why h = rw h

module _ (u : Unicode) (ratio : Text → Text → Float) (tables : Tables) where
  record_match-Leaves :
      (v w : Invoice) (e : ExtractedInvoice) (row : Option InvoiceMatch)
      → record_match u ratio tables v e ≡ ok (row, w)
      → (row ≡ some (match_row u ratio tables e))
        × Leaves v w validating v.extractions
            (v.matches ++ (match_row u ratio tables e ∷ []))
            v.validations
            v.exports
  unfolding record_match
  record_match-Leaves v w e row h =
      let (started, moves, rest) = >>=-eq-ok _ _ h in
      let (legal, same) = (advance_iff v started matching system _).0 moves in
      let first = some Reason.starting_matching in
      let rest' = rw (← same) at rest in
      let (legal', row_is, w_is) = after_move _ w validating system _ rest' in
      (
        sym row_is,
        rw (← w_is) (record {
          logged = Extends-trans (moved-Extends v matching system first legal) (
              moved_with (moved v matching system first) _ validating system _ refl refl refl refl
                legal');
          ends = refl;
          extractions = refl;
          matches = refl;
          validations = refl;
          exports = refl;
        }),
      )

  -- The ways in which the stage returns.
  pub data MatchingRun (v w : Invoice) (row : Option InvoiceMatch) : Type 0 where
    untouched : v.status ≢ extracted → row ≡ none → w ≡ v → MatchingRun v w row
    matched_to :
        (r : ExtractionResult)
        → v.status ≡ extracted
        → extracted_result v ≡ some r
        → row ≡ some (match_row u ratio tables r.invoice)
        → Leaves v w validating v.extractions
            (v.matches ++ (match_row u ratio tables r.invoice ∷ []))
            v.validations
            v.exports
        → MatchingRun v w row
    nothing_extracted :
        v.status ≡ extracted
        → extracted_result v ≡ none
        → row ≡ none
        → Leaves v w failed v.extractions v.matches v.validations v.exports
        → MatchingRun v w row

  -- A run of the matching that returns either met an invoice that is not EXTRACTED, and changed
  -- nothing; or added the row that the extracted data resolve to and left it VALIDATING; or
  -- found no extracted data and left it FAILED. Log and rows of the other stages are kept.
  pub matching_stage-MatchingRun :
      (v w : Invoice) (row : Option InvoiceMatch)
      → matching_stage u ratio tables v ≡ ok (row, w)
      → MatchingRun v w row
  unfolding matching_stage
  matching_stage-MatchingRun v w row h = elim (Bool-cases (v.status == extracted)) [
    | inl y ↦
        let at = (status_eq.beq_iff v.status extracted).0 y in
        elim (Option-cases (extracted_result v)) [
          | inl q ↦
              let (_, row_is, left) =
                give_up-Leaves v w Reason.nothing_to_match row (rw (y, q) at h) in
              nothing_extracted at q row_is left
          | inr (r, q) ↦
              let (row_is, left) = record_match-Leaves v w r.invoice row (rw (y, q) at h) in
              matched_to r at q row_is left
        ]
    | inr n ↦
        let pair = ok-injective (rw n at h) in
        untouched (λ q. absurd_test n ((status_eq.beq_iff v.status extracted).1 q))
          (sym (ap (λ p. p.0) pair)) (sym (ap (λ p. p.1) pair))
  ]
