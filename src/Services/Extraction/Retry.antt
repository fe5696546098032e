-- ===== src/Services/Extraction/Retry.antt =====
-- The retry loop of src/invoice_ops/services/extraction.py: what its result is, how many prompts it
-- sends, and what it reports when it runs out of them.
use ai_account_payable_invoi.Prelude.{
  ℕ, zero, suc, ◌+◌, ◌≤◌, ◌≡◌, refl, ◌⊎◌, Option, none, some, List, [], ◌∷◌, ◌++◌, length,
  length-append, arith, inl, inr,
}
use ai_account_payable_invoi.Text.{Text}
use ai_account_payable_invoi.Domain.Extraction.{ExtractionResult}
use ai_account_payable_invoi.Models.{Hint, invalid_json, schema_mismatch}
use ai_account_payable_invoi.Services.Extraction.{
  Llm, Reply, replied, failed_call, LlmResponse, user_prompt, Parsed, parsed, rejected, Runtime,
  RetryOutcome, Ending, accepted, exhausted, broken, good, bad, check_response, retry_loop,
  extract_with_retry,
}

-- The parser and the schema accept the text, with this result.
pub record IsParseOf {Json : Type 0} (rt : Runtime Json) (raw : Text) (result : ExtractionResult)
    : Type 0 where
  pub json : Json
  pub is_json : rt.json_loads raw ≡ parsed json
  pub fits_schema : rt.model_validate json ≡ parsed result

-- What each way to end the loop promises, with `n` prompts allowed.
pub data RetryEnds {Json : Type 0} (rt : Runtime Json) (llm : Llm) (document : Text) (n : ℕ)
    (ending : Ending) : Type 0 where
  accepts :
      (outcome : RetryOutcome) (before : ℕ) (hint : Option Hint)
      → ending ≡ accepted outcome
      → outcome.attempts ≡ before + 1
      → outcome.attempts ≤ n
      → llm before (user_prompt document hint)
        ≡ replied (record { content = outcome.raw_response; model = outcome.model })
      → IsParseOf rt outcome.raw_response outcome.result
      → RetryEnds rt llm document n ending
  exhausts :
      (errors : List Hint) (raw : Text)
      → ending ≡ exhausted errors n raw
      → length errors ≡ n
      → RetryEnds rt llm document n ending
  breaks :
      (why : Text) (before : ℕ) (hint : Option Hint)
      → ending ≡ broken why
      → before + 1 ≤ n
      → llm before (user_prompt document hint) ≡ failed_call why
      → RetryEnds rt llm document n ending

Reply-cases :
    (r : Reply) → ((x : LlmResponse) × (r ≡ replied x)) ⊎ ((why : Text) × (r ≡ failed_call why))
Reply-cases (replied x) = inl (x, refl)
Reply-cases (failed_call why) = inr (why, refl)

Parsed-cases {ℓ} :
    {A : Type ℓ} (r : Parsed A) → ((x : A) × (r ≡ parsed x)) ⊎ ((why : Text) × (r ≡ rejected why))
Parsed-cases (parsed x) = inl (x, refl)
Parsed-cases (rejected why) = inr (why, refl)

module _ {Json : Type 0} (rt : Runtime Json) where
  check_response-cases :
      (content : Text)
      → ((result : ExtractionResult) × (check_response rt content ≡ good result)
          × IsParseOf rt content result)
        ⊎ ((why : Hint) × (check_response rt content ≡ bad why))
  unfolding check_response
  check_response-cases content = elim (Parsed-cases (rt.json_loads content)) [
    | inl (json, q) ↦ elim (Parsed-cases (rt.model_validate json)) [
      | inl (result, k) ↦ inl (
        result,
        rw (check_response, q, k) refl,
        record { json = json; is_json = q; fits_schema = k },
      )
      | inr (why, k) ↦ inr (schema_mismatch why, rw (check_response, q, k) refl)
    ]
    | inr (why, q) ↦ inr (invalid_json why, rw (check_response, q) refl)
  ]

  retry_loop-RetryEnds :
      (llm : Llm) (document : Text) (rounds made : ℕ) (hint : Option Hint) (errors : List Hint)
      (raw : Text)
      → length errors ≡ made
      → RetryEnds rt llm document
          (rounds + made)
          (retry_loop rt llm document rounds made hint errors raw)
  unfolding retry_loop
  retry_loop-RetryEnds llm document zero made hint errors raw h =
      let same : zero + made ≡ made = omega arith in rw same (exhausts errors raw refl h)
  retry_loop-RetryEnds llm document (suc rounds) made hint errors raw h =
      elim (Reply-cases (llm made (user_prompt document hint))) [
        | inr (why, q) ↦ rw (retry_loop, q) (breaks why made hint refl (omega arith) q)
        | inl (x, q) ↦ elim (check_response-cases x.content) [
          | inl (result, k, parse) ↦
              rw (retry_loop, q, k) (accepts _ made hint refl refl (omega arith) q parse)
          | inr (why, k) ↦
              let longer : length (errors ++ (why ∷ [])) ≡ made + 1 =
                omega (arith, h, length-append errors (why ∷ [])) in
              let rest =
                retry_loop-RetryEnds llm document rounds (made + 1) (some why)
                  (errors ++ (why ∷ [])) x.content longer in
              let same : rounds + (made + 1) ≡ suc rounds + made = omega arith in
              rw (retry_loop, q, k) (rw same at rest)
        ]
      ]

  -- The loop ends in one of three ways, for any model: it accepts a result, in at most
  -- max_retries + 1 prompts, that the parser and the schema give for the response to the last
  -- prompt; it gives up after max_retries + 1 prompts with as many errors; or the model's client
  -- raises on one of these prompts.
  pub extract_with_retry-RetryEnds :
      (llm : Llm) (document : Text) (max_retries : ℕ)
      → RetryEnds rt llm document (max_retries + 1) (extract_with_retry rt llm document max_retries)
  unfolding extract_with_retry
  extract_with_retry-RetryEnds llm document max_retries =
      let run = retry_loop-RetryEnds llm document (max_retries + 1) 0 none [] [] refl in
      let same : max_retries + 1 + 0 ≡ max_retries + 1 = omega arith in rw same at run

  -- An acceptable first answer ends the loop with it.
  pub extract_with_retry-first :
      (llm : Llm) (document : Text) (n : ℕ) (response : LlmResponse) (result : ExtractionResult)
      → llm 0 (user_prompt document none) ≡ replied response
      → IsParseOf rt response.content result
      → extract_with_retry rt llm document n
        ≡ accepted (record {
          result = result;
          attempts = 1;
          raw_response = response.content;
          model = response.model;
        })
  unfolding extract_with_retry retry_loop check_response
  extract_with_retry-first llm document n response result q p =
      let next : n + 1 ≡ suc n = omega arith in
      rw (next, retry_loop, q, check_response, p.is_json, p.fits_schema) refl

  -- An exception of the client at the first prompt ends the loop with it.
  pub extract_with_retry-broken :
      (llm : Llm) (document : Text) (n : ℕ) (why : Text)
      → llm 0 (user_prompt document none) ≡ failed_call why
      → extract_with_retry rt llm document n ≡ broken why
  unfolding extract_with_retry retry_loop
  extract_with_retry-broken llm document n why q =
      let next : n + 1 ≡ suc n = omega arith in rw (next, retry_loop, q) refl
