-- ===== src/Services/Llm/Answers.antt =====
-- The retry loop of src/invoice_ops/services/extraction.py over the client of
-- src/invoice_ops/services/llm.py: where an accepted result comes from, and what ends the loop.
use mathlib.Core.Path.{subst}
use ai_account_payable_invoi.Prelude.{◌≡◌, ◌≢◌, ◌≤◌, ◌+◌, ℕ, refl, Option, none}
use ai_account_payable_invoi.Text.{Text}
use ai_account_payable_invoi.Json.{Json, null, string}
use ai_account_payable_invoi.Models.{Hint}
use ai_account_payable_invoi.Services.Extraction.{
  Llm, replied, failed_call, LlmResponse, user_prompt, Runtime, RetryOutcome, accepted, broken,
  extract_with_retry,
}
use ai_account_payable_invoi.Services.Extraction.Retry.{
  IsParseOf, RetryEnds, accepts, exhausts, breaks, extract_with_retry-RetryEnds,
  extract_with_retry-broken,
}
use ai_account_payable_invoi.Services.Llm.{
  Request, Posted, Completion, completed, request_failed, unexpected_shape, undecodable,
  complete_json, request_for, as_reply,
}
use ai_account_payable_invoi.Services.Llm.Shape.{IsCompletion, complete_json_iff}

module _ (repr column_text : Json → Text) where
  as_reply-eq-replied :
      (c : Completion) (x : LlmResponse)
      → as_reply repr column_text c ≡ replied x
      → (model : Json) × (c ≡ completed (string x.content) model) × (column_text model ≡ x.model)
  as_reply-eq-replied (completed (string t) model) x h = (model, cc, cc)
  as_reply-eq-replied (completed null model) x h = cc
  as_reply-eq-replied (completed j model) x h = cc
  as_reply-eq-replied (request_failed why) x h = cc
  as_reply-eq-replied (unexpected_shape body) x h = cc
  as_reply-eq-replied (undecodable why) x h = cc

  as_reply-fails :
      (c : Completion)
      → ((t : Text) (model : Json) → c ≢ completed (string t) model)
      → (why : Text) × (as_reply repr column_text c ≡ failed_call why)
  as_reply-fails (completed (string t) model) h = absurd (h t model refl)
  as_reply-fails (completed null model) h = (_, refl)
  as_reply-fails (completed j model) h = (_, refl)
  as_reply-fails (request_failed why) h = (_, refl)
  as_reply-fails (unexpected_shape body) h = (_, refl)
  as_reply-fails (undecodable why) h = (_, refl)

-- What the client does in one run: `post n` is what becomes of its request number `n`.
module _ (rt : Runtime Json) (schema : Json) (schema_text : Text) (post : ℕ → Request → Posted)
    (repr column_text : Json → Text) where
  abbrev pub provider_client : Llm
  provider_client n p =
      as_reply repr column_text
        (complete_json rt.settings schema schema_text (post n) rt.json_loads p)

  -- Some request, with the document's prompt, was answered with the raw response.
  pub record WasAnswered (document : Text) (max_retries : ℕ) (o : RetryOutcome) : Type 0 where
    pub before : ℕ
    pub hint : Option Hint
    pub model : Json
    pub is_completion :
        IsCompletion
          (post before (request_for rt.settings schema schema_text (user_prompt document hint)))
          rt.json_loads
          (string o.raw_response)
          model
    pub is_model : column_text model ≡ o.model
    pub is_parse : IsParseOf rt o.raw_response o.result
    pub counted : o.attempts ≡ before + 1
    pub bounded : o.attempts ≤ max_retries + 1

  -- A result that the loop accepts over the client is what parser and schema make of the content of
  -- a JSON answer. It answered the last of at most max_retries + 1 requests, which asked for the
  -- document under the settings' model and key.
  pub extract_with_retry-WasAnswered :
      (document : Text) (max_retries : ℕ) (o : RetryOutcome)
      → extract_with_retry rt provider_client document max_retries ≡ accepted o
      → WasAnswered document max_retries o
  extract_with_retry-WasAnswered document max_retries o h =
      from_ending (extract_with_retry-RetryEnds rt provider_client document max_retries)
    where
      from_ending :
          RetryEnds rt provider_client document
            (max_retries + 1)
            (extract_with_retry rt provider_client document max_retries)
          → WasAnswered document max_retries o
      from_ending (exhausts errors raw e long) = cc
      from_ending (breaks why before hint e few asked) = cc
      from_ending (accepts outcome before hint e counted bounded asked parse) =
          let same : outcome ≡ o = cc in
          let (model, q, m) = as_reply-eq-replied repr column_text _ _ asked in
          let found : WasAnswered document max_retries outcome = record {
            before = before;
            hint = hint;
            model = model;
            is_completion =
                (complete_json_iff rt.json_loads (string outcome.raw_response) model rt.settings
                    schema schema_text (post before) (user_prompt document hint)).0
                  q;
            is_model = m;
            is_parse = parse;
            counted = counted;
            bounded = bounded;
          } in
          subst (WasAnswered document max_retries) same found

  -- If the first request is not answered by a JSON object with a text as the content of its first
  -- choice, then the loop ends with an exception of the client.
  pub extract_with_retry-stops :
      (document : Text) (max_retries : ℕ)
      → ((t : Text) (model : Json)
          → IsCompletion
              (post 0 (request_for rt.settings schema schema_text (user_prompt document none)))
              rt.json_loads
              (string t)
              model
          → ⊥)
      → (why : Text) × (extract_with_retry rt provider_client document max_retries ≡ broken why)
  extract_with_retry-stops document max_retries h =
      let (why, q) = as_reply-fails repr column_text _ (λ t model e. h t model (
        (complete_json_iff rt.json_loads (string t) model rt.settings schema schema_text (post 0)
            (user_prompt document none)).0
          e)) in
      (why, extract_with_retry-broken rt provider_client document max_retries why q)
