-- ===== src/Services/Extraction.antt =====
-- Text and model extraction of one invoice, src/invoice_ops/services/extraction.py and
-- src/invoice_ops/services/llm.py. The model's client is a parameter: what it answers to the n-th
-- prompt of a run, or the error that it raises; so are the JSON parser and the schema check.
pub mod Retry
pub mod Broken
pub mod Stage
use Prim.Native.String.{String}
use ai_account_payable_invoi.Prelude.{
  take, ℕ, zero, suc, ◌+◌, Bool, true, false, Option, none, some, List, [], ◌∷◌, ◌++◌,
  if◌then◌else◌,
}
use ai_account_payable_invoi.Text.{Text, Unicode, is_empty, is_falsy}
use ai_account_payable_invoi.Domain.State.{
  InvoiceStatus, received, extracting, extracted, failed, status_eq,
}
use ai_account_payable_invoi.Domain.Extraction.{ExtractionResult}
use ai_account_payable_invoi.Domain.Export.{Bytes}
use ai_account_payable_invoi.Models
use ai_account_payable_invoi.Models.{
  Tables, Invoice, Hint, invalid_json, schema_mismatch, Reason, TextMethod,
}
use ai_account_payable_invoi.Services.Outcome.{
  Result, ok, raised, or_raise, ◌>>=◌, llm_error, missing_object,
}
use ai_account_payable_invoi.Services.Lifecycle.{advance, system}
use ai_account_payable_invoi.Services.Session.{Objects, get_object, on_invoice}
use ai_account_payable_invoi.Config.{Settings}
use ai_account_payable_invoi.Services.Documents.{DocumentText, extract_text, is_blank}
use ai_account_payable_invoi.Prelude.{◌==◌, not}

-- The part of the prompt that varies: the first 20,000 characters of the document, and the hint.
pub record UserPrompt : Type 0 where
  pub document : Text
  pub error_hint : Option Hint

pub record LlmResponse : Type 0 where
  pub content : Text
  pub model : Text

-- `complete_json` returns a response or raises an `LLMError`.
pub data Reply : Type 0 where
  replied : LlmResponse → Reply
  failed_call : Text → Reply

abbrev pub Llm : Type 0
Llm = ℕ → UserPrompt → Reply

-- What a parser gives: a value, or the text of its error.
pub data Parsed {ℓ} (A : Type ℓ) : Type ℓ where
  parsed : A → Parsed A
  rejected : Text → Parsed A

pub record RetryOutcome : Type 0 where
  pub result : ExtractionResult
  pub attempts : ℕ
  pub raw_response : Text
  pub model : Text

-- How the loop ends: with a result, with `ExtractionFailed`, or with the client's error.
pub data Ending : Type 0 where
  accepted : RetryOutcome → Ending
  exhausted : List Hint → ℕ → Text → Ending
  broken : Text → Ending

unfoldable pub max_text_chars : ℕ
max_text_chars = 20000

unfoldable pub user_prompt : Text → Option Hint → UserPrompt
user_prompt document hint = record { document = take max_text_chars document; error_hint = hint }

-- What becomes of one response.
pub data Checked : Type 0 where
  bad : Hint → Checked
  good : ExtractionResult → Checked

-- What the service takes from its surroundings.
pub record Runtime (Json : Type 0) : Type 0 where
  pub unicode : Unicode
  pub pdf_pages : Bytes → Option (List (Option Text))
  pub json_loads : Text → Parsed Json
  pub model_validate : Json → Parsed ExtractionResult
  pub openrouter : Llm
  pub settings : Settings

abbrev against_schema : Parsed ExtractionResult → Checked
against_schema (parsed result) = good result
against_schema (rejected why) = bad (schema_mismatch why)

module _ {Json : Type 0} (rt : Runtime Json) where
  check_response : Text → Checked
  check_response content = elim (rt.json_loads content) [
    | parsed json ↦ against_schema (rt.model_validate json)
    | rejected why ↦ bad (invalid_json why)
  ]

  -- The rounds left, the attempts made, the hint for the next prompt, the errors, the last response.
  retry_loop : Llm → Text → ℕ → ℕ → Option Hint → List Hint → Text → Ending
  retry_loop llm document zero attempt hint errors raw = exhausted errors attempt raw
  retry_loop llm document (suc rounds) attempt hint errors raw =
      elim (llm attempt (user_prompt document hint)) [
        | failed_call why ↦ broken why
        | replied response ↦ elim (check_response response.content) [
          | good result ↦ accepted (record {
            result = result;
            attempts = attempt + 1;
            raw_response = response.content;
            model = response.model;
          })
          | bad why ↦
              retry_loop llm document rounds (attempt + 1) (some why) (errors ++ (why ∷ []))
                response.content
        ]
      ]

  unfoldable pub extract_with_retry : Llm → Text → ℕ → Ending
  unfolding retry_loop check_response
  extract_with_retry llm document max_retries =
      retry_loop llm document (max_retries + 1) 0 none [] []

  -- `_fail`
  fail_extraction :
      Invoice → TextMethod → Reason → ℕ → Option Text → Result (Option Models.Extraction × Invoice)
  fail_extraction invoice method why attempts raw = do
    let row : Models.Extraction = record {
      model = rt.settings.llm_model;
      text_method = method;
      attempts = attempts;
      ok = false;
      result_json = none;
      field_confidence = none;
      error = some why;
      raw_response = raw;
    }
    invoice' ←
        advance
          (record invoice {
            extractions = invoice.extractions ++ (row ∷ []);
            failure_reason = some why;
          })
          failed system (some why)
    ok (some row, invoice')

  -- `model or settings.llm_model`
  used_model : Text → Text
  used_model model = if is_empty model then rt.settings.llm_model else model

  keep_extraction :
      Invoice → TextMethod → RetryOutcome → Result (Option Models.Extraction × Invoice)
  unfolding used_model
  keep_extraction invoice method outcome = do
    let row : Models.Extraction = record {
      model = used_model outcome.model;
      text_method = method;
      attempts = outcome.attempts;
      ok = true;
      result_json = some outcome.result;
      field_confidence = some outcome.result.field_confidence;
      error = none;
      raw_response = some outcome.raw_response;
    }
    invoice' ←
        advance
          (record invoice {
            extractions = invoice.extractions ++ (row ∷ []);
            failure_reason = none;
          })
          extracted system (some (Reason.extracted_in outcome.attempts (used_model outcome.model)))
    ok (some row, invoice')

  finish_extraction : Invoice → TextMethod → Ending → Result (Option Models.Extraction × Invoice)
  unfolding keep_extraction fail_extraction
  finish_extraction invoice method (accepted outcome) = keep_extraction invoice method outcome
  finish_extraction invoice method (exhausted errors attempts raw) =
      fail_extraction invoice method (Reason.attempts_rejected errors) attempts (some raw)
  finish_extraction invoice method (broken why) = raised (llm_error why)

  -- `llm or OpenRouterClient(settings)`, which raises without a key.
  pub client : Option Llm → Option Llm
  client (some llm) = some llm
  client none = if is_falsy rt.settings.openrouter_api_key then none else some rt.openrouter

  extract_document :
      Option Llm → Invoice → DocumentText → Result (Option Models.Extraction × Invoice)
  unfolding finish_extraction client
  extract_document llm invoice document =
      if is_blank rt.unicode document
      then fail_extraction invoice document.method Reason.no_text_layer 0 none
      else elim (client llm) [
        | none ↦ fail_extraction invoice document.method Reason.no_api_key 0 none
        | some c ↦
            finish_extraction invoice document.method
              (extract_with_retry c document.content rt.settings.llm_max_retries)
      ]

  -- The stored bytes, as text.
  read_document : Objects → Invoice → Result DocumentText
  read_document objects invoice = do
    bytes ← or_raise (get_object invoice.storage_key objects) missing_object
    extract_text rt.unicode rt.pdf_pages bytes invoice.content_type

  begin_extraction : Objects → Option Llm → Invoice → Result (Option Models.Extraction × Invoice)
  unfolding extract_document read_document
  begin_extraction objects llm invoice = do
    started ← advance invoice extracting system (some Reason.starting_extraction)
    document ← read_document objects started
    extract_document llm started document

  unfoldable pub extraction_stage :
      Objects → Option Llm → Invoice → Result (Option Models.Extraction × Invoice)
  unfolding begin_extraction
  extraction_stage objects llm invoice =
      if invoice.status == received
      then begin_extraction objects llm invoice
      else ok (none, invoice)

  unfoldable pub run_extraction :
      Objects → Option Llm → ℕ → Tables → Result (Option Models.Extraction × Tables)
  unfolding extraction_stage
  run_extraction objects llm = on_invoice (extraction_stage objects llm)

-- `latest_successful_extraction`: the last one that is ok.
unfoldable pub latest_ok :
    Option Models.Extraction → List Models.Extraction → Option Models.Extraction
latest_ok found [] = found
latest_ok found (e ∷ es) = latest_ok (if e.ok then some e else found) es

unfoldable pub latest_successful_extraction : Invoice → Option Models.Extraction
unfolding latest_ok
latest_successful_extraction invoice = latest_ok none invoice.extractions
