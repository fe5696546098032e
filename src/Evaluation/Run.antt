-- ===== src/Evaluation/Run.antt =====
-- The run of the model over the fixtures, evals/run.py of the repository. What the files of a fixture
-- hold, and what the model's client answers while the fixture runs, are parameters.
pub mod Faithful
use ai_account_payable_invoi.Prelude.{ℕ, Option, none, some, List, [], ◌∷◌, if◌then◌else◌}
use ai_account_payable_invoi.Prelude.Options.{◌>>=◌}
use ai_account_payable_invoi.Text.{Text, is_falsy}
use ai_account_payable_invoi.Decimal.{Decimal}
use ai_account_payable_invoi.Domain.Extraction.{ExtractedInvoice}
use ai_account_payable_invoi.Domain.Export.{Bytes}
use ai_account_payable_invoi.Services.Outcome.{Result, ok, raised}
use ai_account_payable_invoi.Services.Documents.{DocumentText, extract_text, is_blank}
use ai_account_payable_invoi.Services.Extraction.{
  Llm, Parsed, parsed, rejected, Runtime, Ending, accepted, exhausted, broken, extract_with_retry,
}
use ai_account_payable_invoi.Evaluation.Scoring.{FieldScore, score_invoice, Aggregate, aggregate}

-- A PDF, the text of its `.expected.json` if there is one, and the client's answers.
pub record Fixture : Type 0 where
  pub pdf : Bytes
  pub expected : Option Text
  pub answers : Llm

-- The line that is printed for a fixture.
pub data Line : Type 0 where
  no_expected no_text_layer : Line
  failed_after : ℕ → Line
  scored_in : ℕ → List FieldScore → Line

pub record Report : Type 0 where
  pub exit_code : ℕ
  pub lines : List Line
  pub totals : Option Aggregate

-- `per_invoice`
unfoldable pub per_invoice : List Line → List (List FieldScore)
per_invoice [] = []
per_invoice (scored_in attempts scores ∷ ls) = scores ∷ per_invoice ls
per_invoice (no_expected ∷ ls) = per_invoice ls
per_invoice (no_text_layer ∷ ls) = per_invoice ls
per_invoice (failed_after n ∷ ls) = per_invoice ls

abbrev pub report_of : List Line → List (List FieldScore) → Report
report_of ls [] = record { exit_code = 1; lines = ls; totals = none }
report_of ls (s ∷ ss) = record { exit_code = 0; lines = ls; totals = some (aggregate (s ∷ ss)) }

module _ {Json : Type 0} (rt : Runtime Json) (cents_text : Decimal → Text) (iso_text : ℕ → Text)
    (model_validate_json : Text → Parsed ExtractedInvoice) where
  abbrev score_against : ExtractedInvoice → Parsed ExtractedInvoice → ℕ → Option Line
  score_against got (rejected why) attempts = none
  score_against got (parsed truth) attempts =
      some (scored_in attempts (score_invoice rt.unicode cents_text iso_text truth got))

  -- The client's error and a bad `.expected.json` end the run, here as `none`.
  abbrev line_of : Text → Ending → Option Line
  line_of truth (accepted o) = score_against o.result.invoice (model_validate_json truth) o.attempts
  line_of truth (exhausted errors attempts raw) = some (failed_after attempts)
  line_of truth (broken why) = none

  abbrev run_document : Llm → Text → Result DocumentText → Option Line
  run_document llm truth (raised why) = none
  run_document llm truth (ok document) =
      if is_blank rt.unicode document
      then some no_text_layer
      else line_of truth (extract_with_retry rt llm document.content rt.settings.llm_max_retries)

  abbrev run_expected : Bytes → Llm → Option Text → Option Line
  run_expected pdf llm none = some no_expected
  run_expected pdf llm (some truth) =
      run_document llm truth (extract_text rt.unicode rt.pdf_pages pdf "application/pdf")

  -- The body of the loop of `main`.
  unfoldable pub run_fixture : Fixture → Option Line
  run_fixture f = run_expected f.pdf f.answers f.expected

  unfoldable pub run_fixtures : List Fixture → Option (List Line)
  run_fixtures [] = some []
  run_fixtures (f ∷ fs) = do l ← run_fixture f; ls ← run_fixtures fs; some (l ∷ ls)

  -- `main`: what it returns and prints, or `none` where an exception leaves it.
  unfoldable pub run : List Fixture → Option Report
  run [] = some (record { exit_code = 1; lines = []; totals = none })
  run (f ∷ fs) =
      if is_falsy rt.settings.openrouter_api_key
      then some (record { exit_code = 2; lines = []; totals = none })
      else (do ls ← run_fixtures (f ∷ fs); some (report_of ls (per_invoice ls)))
