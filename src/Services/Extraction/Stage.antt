-- ===== src/Services/Extraction/Stage.antt =====
-- What the extraction stage does to an invoice, on every branch.
use ai_account_payable_invoi.Prelude.{
  ℕ, ◌≡◌, ◌≢◌, refl, sym, ap, ◌⊎◌, true, false, Bool-cases, Option, none, some, [], ◌∷◌, ◌++◌, inl,
  inr, Option-cases, ◌==◌,
}
use ai_account_payable_invoi.Text.{Text}
use ai_account_payable_invoi.Domain.State.{
  InvoiceStatus, can_transition, received, extracting, extracted, failed, status_eq,
}
use ai_account_payable_invoi.Domain.Extraction.{ExtractionResult}
use ai_account_payable_invoi.Models
use ai_account_payable_invoi.Models.{Invoice, Reason, TextMethod}
use ai_account_payable_invoi.Services.Outcome.{ok, >>=-eq-ok}
use ai_account_payable_invoi.Services.Session.{Objects}
use ai_account_payable_invoi.Services.Documents.{DocumentText, is_blank}
use ai_account_payable_invoi.Services.Lifecycle.{system}
use ai_account_payable_invoi.Services.Lifecycle.History.{
  Extends, Extends-trans, advance_iff, moved, absurd_test, moved-Extends, ok-injective, after_move,
  moved_with,
}
use ai_account_payable_invoi.Services.Extraction.{
  Llm, Runtime, RetryOutcome, Ending, accepted, exhausted, broken, extraction_stage,
  begin_extraction, read_document, extract_document, finish_extraction, keep_extraction,
  fail_extraction, client,
}

-- A new attempt that succeeded, or that failed.
pub record Succeeds (x : Models.Extraction) : Type 0 where
  pub result : ExtractionResult
  pub is_ok : x.ok ≡ true
  pub stored : x.result_json ≡ some result
  pub confidence : x.field_confidence ≡ some result.field_confidence

-- One attempt is added to the invoice, which ends in `status`; the rows of later stages stay.
pub record Attempted (v w : Invoice) (x : Models.Extraction) (target : InvoiceStatus) : Type 0 where
  pub logged : Extends v w
  pub ends : w.status ≡ target
  pub added : w.extractions ≡ v.extractions ++ (x ∷ [])
  pub same_matches : w.matches ≡ v.matches
  pub same_validations : w.validations ≡ v.validations
  pub same_exports : w.exports ≡ v.exports

-- Either the attempt succeeds and the invoice is extracted, or it fails and the invoice has failed.
pub data Ran (v w : Invoice) (row : Option Models.Extraction) : Type 0 where
  succeeded :
      (x : Models.Extraction)
      → row ≡ some x
      → Succeeds x
      → Attempted v w x extracted
      → w.failure_reason ≡ none
      → Ran v w row
  gave_up :
      (x : Models.Extraction)
      → row ≡ some x
      → x.ok ≡ false
      → Attempted v w x failed
      → w.failure_reason ≡ x.error
      → Ran v w row

-- A legal move may come before the attempt.
Attempted-after :
    (v w : Invoice) (x : Models.Extraction) (target : InvoiceStatus) (actor : Text)
    (reason : Option Reason) (end : InvoiceStatus)
    → can_transition v.status target ≡ true
    → Attempted (moved v target actor reason) w x end
    → Attempted v w x end
Attempted-after v w x target actor reason end legal a = record {
  logged = Extends-trans (moved-Extends v target actor reason legal) a.logged;
  ends = a.ends;
  added = a.added;
  same_matches = a.same_matches;
  same_validations = a.same_validations;
  same_exports = a.same_exports;
}

Ran-after :
    (v w : Invoice) (row : Option Models.Extraction) (target : InvoiceStatus) (actor : Text)
    (reason : Option Reason)
    → can_transition v.status target ≡ true
    → Ran (moved v target actor reason) w row
    → Ran v w row
Ran-after v w row target actor reason legal (succeeded x is yes_x a f) =
    succeeded x is yes_x (Attempted-after v w x target actor reason _ legal a) f
Ran-after v w row target actor reason legal (gave_up x is no_x a f) =
    gave_up x is no_x (Attempted-after v w x target actor reason _ legal a) f

module _ {Json : Type 0} (rt : Runtime Json) where
  fail_extraction-Ran :
      (v w : Invoice) (row : Option Models.Extraction) (method : TextMethod) (why : Reason) (n : ℕ)
      (raw : Option Text)
      → fail_extraction rt v method why n raw ≡ ok (row, w)
      → Ran v w row
  unfolding fail_extraction
  fail_extraction-Ran v w row method why n raw e =
      let (legal, row_is, w_is) = after_move _ w failed system (some why) e in
      rw (← row_is, ← w_is)
        (gave_up _ refl refl
          (record {
            logged = moved_with v _ failed system (some why) refl refl refl refl legal;
            ends = refl;
            added = refl;
            same_matches = refl;
            same_validations = refl;
            same_exports = refl;
          })
          refl)

  keep_extraction-Ran :
      (v w : Invoice) (row : Option Models.Extraction) (method : TextMethod)
      (outcome : RetryOutcome)
      → keep_extraction rt v method outcome ≡ ok (row, w)
      → Ran v w row
  unfolding keep_extraction
  keep_extraction-Ran v w row method outcome e =
      let (legal, row_is, w_is) = after_move _ w extracted system _ e in
      rw (← row_is, ← w_is)
        (succeeded _ refl
          (record { result = outcome.result; is_ok = refl; stored = refl; confidence = refl })
          (record {
            logged = moved_with v _ extracted system _ refl refl refl refl legal;
            ends = refl;
            added = refl;
            same_matches = refl;
            same_validations = refl;
            same_exports = refl;
          })
          refl)

  finish_extraction-Ran :
      (v w : Invoice) (row : Option Models.Extraction) (method : TextMethod) (ending : Ending)
      → finish_extraction rt v method ending ≡ ok (row, w)
      → Ran v w row
  unfolding finish_extraction
  finish_extraction-Ran v w row method (accepted outcome) e =
      keep_extraction-Ran v w row method outcome e
  finish_extraction-Ran v w row method (exhausted errors n raw) e =
      fail_extraction-Ran v w row method _ n (some raw) e
  finish_extraction-Ran v w row method (broken why) e = cc

  extract_document-Ran :
      (llm : Option Llm) (v w : Invoice) (row : Option Models.Extraction) (document : DocumentText)
      → extract_document rt llm v document ≡ ok (row, w)
      → Ran v w row
  unfolding extract_document
  extract_document-Ran llm v w row document e = elim (Bool-cases (is_blank rt.unicode document)) [
    | inl y ↦ fail_extraction-Ran v w row _ _ _ _ (rw y at e)
    | inr n ↦ elim (Option-cases (client rt llm)) [
      | inl q ↦ fail_extraction-Ran v w row _ _ _ _ (rw (n, q) at e)
      | inr (c, q) ↦ finish_extraction-Ran v w row _ _ (rw (n, q) at e)
    ]
  ]

  begin_extraction-Ran :
      (objects : Objects) (llm : Option Llm) (v w : Invoice) (row : Option Models.Extraction)
      → begin_extraction rt objects llm v ≡ ok (row, w)
      → Ran v w row
  unfolding begin_extraction
  begin_extraction-Ran objects llm v w row e =
      let (started, moves, rest) = >>=-eq-ok _ _ e in
      let (document, read, last) =
        >>=-eq-ok (read_document rt objects started) (λ d. extract_document rt llm started d)
          rest in
      let (legal, same) = (advance_iff v started extracting system _).0 moves in
      Ran-after v w row extracting system _ legal
        (rw (← same) at (extract_document-Ran llm started w row document last))

  -- A run of the extraction that returns either met an invoice that is not RECEIVED, and changed
  -- nothing; or added one attempt by legal moves: a successful one, with its result, and the
  -- invoice is EXTRACTED without a failure reason; or a failed one, and the invoice is FAILED
  -- with the attempt's error as its reason.
  pub extraction_stage-Ran :
      (objects : Objects) (llm : Option Llm) (v w : Invoice) (row : Option Models.Extraction)
      → extraction_stage rt objects llm v ≡ ok (row, w)
      → (v.status ≢ received) × (row ≡ none) × (w ≡ v) ⊎ (v.status ≡ received) × Ran v w row
  unfolding extraction_stage
  extraction_stage-Ran objects llm v w row e = elim (Bool-cases (v.status == received)) [
    | inl y ↦ inr (
      (status_eq.beq_iff v.status received).0 y,
      begin_extraction-Ran objects llm v w row (rw y at e),
    )
    | inr n ↦
        let pair = ok-injective (rw n at e) in
        inl (
          λ q. absurd_test n ((status_eq.beq_iff v.status received).1 q),
          sym (ap (λ p. p.0) pair),
          sym (ap (λ p. p.1) pair),
        )
  ]
