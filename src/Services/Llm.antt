-- ===== src/Services/Llm.antt =====
-- The OpenRouter client, src/invoice_ops/services/llm.py, and the texts that it is given, of
-- src/invoice_ops/services/extraction.py. The HTTP request, the JSON parser and the text of the
-- schema are parameters.
pub mod Shape
pub mod Answers
use Prim.Native.String.{String}
use mathlib.Core.List.{flat_map}
use ai_account_payable_invoi.Prelude.{
  ℕ, Bool, true, false, Option, none, some, List, [], ◌∷◌, ◌++◌, if◌then◌else◌,
}
use ai_account_payable_invoi.Prelude.Options.{◌>>=◌}
use ai_account_payable_invoi.Text.{Text, text, is_falsy}
use ai_account_payable_invoi.Float.{Float}
use ai_account_payable_invoi.Json
use ai_account_payable_invoi.Json.{Json, string, object, item_at, first_item, get_member}
use ai_account_payable_invoi.Config.{Settings}
use ai_account_payable_invoi.Models.{Hint, invalid_json, schema_mismatch}
use ai_account_payable_invoi.Services.Extraction.{
  UserPrompt, LlmResponse, Reply, replied, failed_call, Llm, Parsed, parsed, rejected,
}

unfoldable pub system_prompt : Text
system_prompt = flat_map text (
    "You extract structured data from a single supplier invoice. "
    ∷ "Return ONLY a JSON object matching the schema. "
    ∷ "Use null for any field not clearly present in the text -- never guess. "
    ∷ "Exception: if currency is not printed explicitly, infer it from strong "
    ∷ "contextual signals (seller/buyer country or address, decimal-comma vs "
    ∷ "decimal-point formatting) rather than returning null -- a competent "
    ∷ "bookkeeper would not leave it blank just because the symbol is missing. "
    ∷ "This inference allowance applies to currency only: every other field "
    ∷ "(amounts, dates, names, identifiers) must stay null when not clearly "
    ∷ "present, and field_confidence should be lower for an inferred value "
    ∷ "than for one read directly off the page. "
    ∷ "Amounts are plain numbers: no currency symbols, no thousands separators. "
    ∷ "Dates are ISO 8601 (YYYY-MM-DD). "
    ∷ "In field_confidence give a 0..1 score for every field you populated in `invoice`." ∷ [])

-- `"\n".join(parts)`
abbrev join_lines : List Text → Text
join_lines [] = []
join_lines (p ∷ []) = p
join_lines (p ∷ q ∷ ps) = p ++ (0x0a ∷ join_lines (q ∷ ps))

abbrev quotes : Text
quotes = 0x22 ∷ 0x22 ∷ 0x22 ∷ []

abbrev hint_text : Hint → Text
hint_text (invalid_json why) = text "response was not valid JSON: " ++ why
hint_text (schema_mismatch why) = text "JSON did not match the schema: " ++ why

abbrev hint_lines : Option Hint → List Text
hint_lines none = []
hint_lines (some hint) =
    []
    ∷ text "Your previous response was rejected. Fix this and return valid JSON:"
    ∷ hint_text hint
    ∷ []

-- `_user_prompt`, from the parts of it that vary and the text of the schema.
unfoldable pub prompt_text : Text → UserPrompt → Text
prompt_text schema p = join_lines (
    (text "JSON Schema:" ∷ schema ∷ [] ∷ text "Invoice text:" ∷ quotes ∷ p.document ∷ quotes ∷ [])
    ++ hint_lines p.error_hint)

-- What is posted.
pub record Payload : Type 0 where
  pub model : Text
  pub temperature : Float
  pub system : Text
  pub user : Text
  pub schema_name : String
  pub strict : Bool
  pub schema : Json

pub record Request : Type 0 where
  pub url : Text
  pub authorization : Text
  pub json : Payload

-- What `post` and `raise_for_status` give: the text of the body, or an `HTTPError`.
pub data Posted : Type 0 where
  responded : Text → Posted
  http_error : Text → Posted

-- What `complete_json` gives. The text of a response need not be a text here; a body that is no
-- JSON raises a `JSONDecodeError`, which is no `LLMError`.
pub data Completion : Type 0 where
  completed : Json → Json → Completion
  request_failed : Text → Completion
  unexpected_shape : Json → Completion
  undecodable : Text → Completion

-- `body["choices"][0]["message"]["content"]`
unfoldable pub content_of : Json → Option Json
content_of body = do
  choices ← item_at (text "choices") body
  choice ← first_item choices
  message ← item_at (text "message") choice
  item_at (text "content") message

-- `body.get("model", "")`, which is reached for an object only.
abbrev pub model_or_empty : Option Json → Json
model_or_empty none = string []
model_or_empty (some j) = j

abbrev pub from_content : Json → Option Json → Completion
from_content body none = unexpected_shape body
from_content body (some content) = completed content (model_or_empty (item_at (text "model") body))

abbrev pub from_body : Parsed Json → Completion
from_body (rejected why) = undecodable why
from_body (parsed body) = from_content body (content_of body)

abbrev pub from_posted : (Text → Parsed Json) → Posted → Completion
from_posted json_loads (responded body) = from_body (json_loads body)
from_posted json_loads (http_error why) = request_failed why

abbrev or_none : Option Text → Text
or_none none = []
or_none (some t) = t

module _ (settings : Settings) (schema : Json) (schema_text : Text) where
  unfoldable pub request_for : UserPrompt → Request
  request_for p = record {
    url = settings.openrouter_base_url ++ text "/chat/completions";
    authorization = text "Bearer " ++ or_none settings.openrouter_api_key;
    json = record {
      model = settings.llm_model;
      temperature = settings.llm_temperature;
      system = system_prompt;
      user = prompt_text schema_text p;
      schema_name = "extraction_result";
      strict = false;
      schema = schema;
    };
  }

  unfoldable pub complete_json : (Request → Posted) → (Text → Parsed Json) → UserPrompt → Completion
  complete_json post json_loads p = from_posted json_loads (post (request_for p))

-- What the retry loop makes of it. A content that is no text raises a TypeError in the loop's
-- parser, and no exception but that of the parser on a text is caught there. The texts of values
-- are parameters; that of a model is empty if the value is falsy.
abbrev pub as_reply : (Json → Text) → (Json → Text) → Completion → Reply
as_reply repr column_text (completed (string content) model) =
    replied (record { content = content; model = column_text model })
as_reply repr column_text (completed content model) =
    failed_call (text "the JSON object must be str, bytes or bytearray")
as_reply repr column_text (request_failed why) =
    failed_call (text "OpenRouter request failed: " ++ why)
as_reply repr column_text (unexpected_shape body) =
    failed_call (text "unexpected OpenRouter response shape: " ++ repr body)
as_reply repr column_text (undecodable why) = failed_call why
