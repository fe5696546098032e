-- ===== src/Evaluation/Run/Faithful.antt =====
-- The run of the evaluation, evals/run.py, when the model answers the truth.
use ai_account_payable_invoi.Prelude.{
  ℕ, suc, ◌≡◌, refl, false, Option, none, some, List, [], ◌∷◌, length, All, All-append, arith,
}
use ai_account_payable_invoi.Text.{Text, is_falsy}
use ai_account_payable_invoi.Decimal.{Decimal}
use ai_account_payable_invoi.Domain.Extraction.{ExtractedInvoice, ExtractionResult}
use ai_account_payable_invoi.Services.Outcome.{ok}
use ai_account_payable_invoi.Services.Documents.{DocumentText, extract_text, is_blank}
use ai_account_payable_invoi.Services.Extraction.{
  replied, LlmResponse, user_prompt, Parsed, parsed, Runtime,
}
use ai_account_payable_invoi.Services.Extraction.Retry.{IsParseOf, extract_with_retry-first}
use ai_account_payable_invoi.Evaluation.Scoring.{
  FieldScore, score_invoice, Aggregate, aggregate, field_accuracy, critical_accuracy, flatten,
}
use ai_account_payable_invoi.Evaluation.Scoring.Totals.{
  IsRight, correct_in_pool, correct_in_critical, ratio_or-one, score_invoice-AllRight,
}
use ai_account_payable_invoi.Evaluation.Run.{
  Fixture, Line, scored_in, Report, per_invoice, run_fixture, run_fixtures, run,
}

abbrev IsRightScore : FieldScore → Type 0
IsRightScore s = IsRight s.verdict

nonempty {ℓ} :
    {A : Type ℓ} {n : ℕ} (xs : List A)
    → length xs ≡ suc n
    → (x : A) × (rest : List A) × (xs ≡ x ∷ rest)
nonempty [] h = cc
nonempty (x ∷ xs) h = (x, xs, refl)

module _ {Json : Type 0} (rt : Runtime Json) (cents_text : Decimal → Text) (iso_text : ℕ → Text)
    (model_validate_json : Text → Parsed ExtractedInvoice) where
  -- The PDF has text, and the first answer of the model is the invoice of the `.expected.json`.
  pub record IsAnswered (f : Fixture) : Type 0 where
    pub truth : Text
    pub has_truth : f.expected ≡ some truth
    pub document : DocumentText
    pub is_read : extract_text rt.unicode rt.pdf_pages f.pdf "application/pdf" ≡ ok document
    pub has_text : is_blank rt.unicode document ≡ false
    pub response : LlmResponse
    pub is_answer : f.answers 0 (user_prompt document.content none) ≡ replied response
    pub result : ExtractionResult
    pub is_parsed : IsParseOf rt response.content result
    pub is_truth : model_validate_json truth ≡ parsed result.invoice

  abbrev faithful_line : ExtractedInvoice → Line
  faithful_line e = scored_in 1 (score_invoice rt.unicode cents_text iso_text e e)

  run_fixture-IsAnswered :
      (f : Fixture) (h : IsAnswered f)
      → run_fixture rt cents_text iso_text model_validate_json f
        ≡ some (faithful_line h.result.invoice)
  unfolding run_fixture
  run_fixture-IsAnswered f h =
      let first =
        extract_with_retry-first rt f.answers h.document.content rt.settings.llm_max_retries
          h.response h.result h.is_answer h.is_parsed in
      rw (h.has_truth, h.is_read, h.has_text, first, h.is_truth) refl

  run_fixtures-IsAnswered :
      (fs : List Fixture)
      → All IsAnswered fs
      → (ls : List Line) × (run_fixtures rt cents_text iso_text model_validate_json fs ≡ some ls)
        × (length (per_invoice ls) ≡ length fs)
        × All IsRightScore (flatten (per_invoice ls))
  unfolding run_fixtures per_invoice
  run_fixtures-IsAnswered [] h = ([], refl, refl, tt)
  run_fixtures-IsAnswered (f ∷ fs) h =
      let (ls, q, same, right) = run_fixtures-IsAnswered fs h.1 in
      let e = h.0.result.invoice in
      (
        faithful_line e ∷ ls,
        rw (run_fixture-IsAnswered f h.0, q) refl,
        omega (arith, same),
        All-append _ _ (flatten (per_invoice ls))
            (score_invoice-AllRight rt.unicode cents_text iso_text e) right,
      )

  abbrev pub IsFaithfulRun : List Fixture → Option Report → Type 0
  IsFaithfulRun fs outcome =
      (ls : List Line) × (t : Aggregate) × (outcome
        ≡ some (record { exit_code = 0; lines = ls; totals = some t }))
      × (length (per_invoice ls) ≡ length fs)
      × (t.n_correct ≡ t.graded)
      × ((field_accuracy t).num ≡ (field_accuracy t).den)
      × ((critical_accuracy t).num ≡ (critical_accuracy t).den)

  -- With an API key and at least one fixture, where every PDF has text, every truth is valid, and
  -- the model's first answer is accepted and gives the very invoice of the truth, the run ends with
  -- exit code 0, scores every fixture, and every field that it grades is correct, so that both
  -- accuracies are 1.
  pub run-IsFaithfulRun :
      (f : Fixture) (fs : List Fixture)
      → is_falsy rt.settings.openrouter_api_key ≡ false
      → All IsAnswered (f ∷ fs)
      → IsFaithfulRun (f ∷ fs) (run rt cents_text iso_text model_validate_json (f ∷ fs))
  unfolding run aggregate field_accuracy critical_accuracy
  run-IsFaithfulRun f fs has_key h =
      let (ls, q, same, right) = run_fixtures-IsAnswered (f ∷ fs) h in
      let (s, ss, k) = nonempty (per_invoice ls) same in
      let all_right = correct_in_pool (flatten (s ∷ ss)) (rw k at right) in
      let all_critical = correct_in_critical (flatten (s ∷ ss)) (rw k at right) in
      (
        ls,
        aggregate (s ∷ ss),
        rw (has_key, q, k) refl,
        same,
        all_right,
        rw all_right (ratio_or-one (aggregate (s ∷ ss)).graded),
        rw all_critical (ratio_or-one (aggregate (s ∷ ss)).critical_graded),
      )
