-- ===== src/Tests/Provider.antt =====
-- The theorems on the model's client at a concrete provider.
use ai_account_payable_invoi.Prelude.{ℕ, ◌≡◌, ◌↔◌, refl, none, []}
use ai_account_payable_invoi.Text.{Text, text}
use ai_account_payable_invoi.Json.{
  Json, null, string, array, object, nil, cons, end, member, item_at, first_item, get_member,
}
use ai_account_payable_invoi.Config.{default_settings}
use ai_account_payable_invoi.Services.Extraction.{
  UserPrompt, failed_call, user_prompt, Parsed, parsed, Runtime, RetryOutcome, accepted, broken,
  extract_with_retry,
}
use ai_account_payable_invoi.Services.Llm.{
  request_for, Request, Posted, responded, http_error, completed, content_of, complete_json,
}
use ai_account_payable_invoi.Services.Llm.Shape.{IsCompletion, complete_json_iff}
use ai_account_payable_invoi.Services.Llm.Answers.{
  provider_client, WasAnswered, extract_with_retry-WasAnswered, extract_with_retry-stops,
}
use ai_account_payable_invoi.Tests.Data.{ascii, acme_result}

-- `{"choices": [{"message": {"content": "x"}}], "model": "m"}`
abbrev answer : Json
answer = object (
    member (text "choices")
      (array (
        cons
          (object (
            member (text "message") (object (member (text "content") (string (text "x")) end)) end))
          nil))
      (member (text "model") (string (text "m")) end))

-- The parser reads the body of an answer, and any other text as null.
abbrev parse : Text → Parsed Json
parse [] = parsed answer
parse t = parsed null

abbrev answers : ℕ → Request → Posted
answers n r = responded []

abbrev no_text : Json → Text
no_text j = []

abbrev model_text : Json → Text
model_text (string t) = t
model_text j = []

abbrev provider : Runtime Json
provider = record {
  unicode = ascii;
  pdf_pages = λ bytes. none;
  json_loads = parse;
  model_validate = λ j. parsed acme_result;
  openrouter = λ n q. failed_call [];
  settings = default_settings;
}

abbrev prompt : UserPrompt
prompt = user_prompt (text "Invoice") none

complete_json_iff_example :
    (complete_json default_settings null [] (answers 0) parse prompt
      ≡ completed (string (text "x")) (string (text "m")))
    ↔ IsCompletion (responded []) parse (string (text "x")) (string (text "m"))
complete_json_iff_example =
    complete_json_iff parse (string (text "x")) (string (text "m")) default_settings null []
      (answers 0) prompt

abbrev outcome : RetryOutcome
outcome = record { result = acme_result; attempts = 1; raw_response = text "x"; model = text "m" }

is_accepted :
    extract_with_retry provider
      (provider_client provider null [] answers no_text model_text)
      (text "Invoice")
      1
    ≡ accepted outcome
unfolding extract_with_retry complete_json content_of item_at first_item get_member
is_accepted = refl

extract_with_retry-WasAnswered_example :
    WasAnswered provider null [] answers no_text model_text (text "Invoice") 1 outcome
extract_with_retry-WasAnswered_example =
    extract_with_retry-WasAnswered provider null [] answers no_text model_text (text "Invoice") 1
      outcome is_accepted

-- A provider that refuses.
abbrev refusals : ℕ → Request → Posted
refusals n r = http_error (text "429")

refusals-stop :
    (t : Text) (model : Json)
    → IsCompletion
        (refusals 0 (request_for default_settings null [] (user_prompt (text "Invoice") none)))
        parse
        (string t)
        model
    → ⊥
refusals-stop t model h = let e = h.has_responded in cc

extract_with_retry-stops_example :
    (why : Text) × (extract_with_retry provider
        (provider_client provider null [] refusals no_text model_text)
        (text "Invoice")
        1
      ≡ broken why)
extract_with_retry-stops_example =
    extract_with_retry-stops provider null [] refusals no_text model_text (text "Invoice") 1
      refusals-stop
