-- ===== src/Services/Llm/Shape.antt =====
-- Which answers of the provider `complete_json` accepts, src/invoice_ops/services/llm.py.
use ai_account_payable_invoi.Prelude.{◌≡◌, ◌↔◌, refl, Option, none, some, ◌∷◌}
use ai_account_payable_invoi.Prelude.Options.{>>=-eq-some}
use ai_account_payable_invoi.Text.{Text, text}
use ai_account_payable_invoi.Json.{
  Json, string, array, object, Items, cons, Members, item_at, first_item, get_member,
}
use ai_account_payable_invoi.Config.{Settings}
use ai_account_payable_invoi.Services.Extraction.{UserPrompt, Parsed, parsed, rejected}
use ai_account_payable_invoi.Services.Llm.{
  Request, Posted, responded, http_error, completed, content_of, model_or_empty, from_content,
  from_body, from_posted, request_for, complete_json,
}

-- An object whose `choices` are a list; the first of them is an object, with an object as its
-- `message`, which has this `content`.
pub record IsAnswer (body content : Json) : Type 0 where
  pub members : Members
  pub is_object : body ≡ object members
  pub choice : Members
  pub others : Items
  pub has_choices : get_member (text "choices") members ≡ some (array (cons (object choice) others))
  pub message : Members
  pub has_message : get_member (text "message") choice ≡ some (object message)
  pub has_content : get_member (text "content") message ≡ some content

item_at-eq-some :
    (key : Text) (j v : Json)
    → item_at key j ≡ some v
    → (ms : Members) × (j ≡ object ms) × (get_member key ms ≡ some v)
unfolding item_at
item_at-eq-some key (object ms) v h = (ms, refl, h)
item_at-eq-some key j v h = cc

-- The first character of a text is no object.
first_item-eq-some :
    (j : Json) (ms : Members)
    → first_item j ≡ some (object ms)
    → (js : Items) × (j ≡ array (cons (object ms) js))
unfolding first_item
first_item-eq-some (array (cons i js)) ms h = (js, cc)
first_item-eq-some (string (c ∷ t)) ms h = cc
first_item-eq-some j ms h = cc

content_of_iff : (body content : Json) → (content_of body ≡ some content) ↔ IsAnswer body content
unfolding content_of item_at first_item
content_of_iff body content = (reads, given)
  where
    reads : content_of body ≡ some content → IsAnswer body content
    reads h =
        let (choices, q1, h1) = >>=-eq-some (item_at (text "choices") body) _ h in
        let (first, q2, h2) = >>=-eq-some (first_item choices) _ h1 in
        let (message, q3, h3) = >>=-eq-some (item_at (text "message") first) _ h2 in
        let (members, e1, g1) = item_at-eq-some (text "choices") body choices q1 in
        let (choice, e2, g2) = item_at-eq-some (text "message") first message q3 in
        let (inner, e3, g3) = item_at-eq-some (text "content") message content h3 in
        let (others, e4) = first_item-eq-some choices choice (rw e2 at q2) in
        record {
          members = members;
          is_object = e1;
          choice = choice;
          others = others;
          has_choices = rw e4 at g1;
          message = inner;
          has_message = rw e3 at g2;
          has_content = g3;
        }

    given : IsAnswer body content → content_of body ≡ some content
    given a =
        rw (a.is_object, content_of, item_at, a.has_choices, a.has_message, a.has_content) refl

-- The texts and values that lead to a completion.
pub record IsCompletion (posted : Posted) (json_loads : Text → Parsed Json) (content model : Json)
    : Type 0 where
  pub body_text : Text
  pub has_responded : posted ≡ responded body_text
  pub body : Json
  pub is_json : json_loads body_text ≡ parsed body
  pub is_answer : IsAnswer body content
  pub has_model : model_or_empty (item_at (text "model") body) ≡ model

from_content-eq :
    (body : Json) (o : Option Json) (content model : Json)
    → from_content body o ≡ completed content model
    → (o ≡ some content) × (model_or_empty (item_at (text "model") body) ≡ model)
from_content-eq body none content model h = cc
from_content-eq body (some c) content model h = (cc, cc)

from_body-eq :
    (p : Parsed Json) (content model : Json)
    → from_body p ≡ completed content model
    → (body : Json) × (p ≡ parsed body)
      × (content_of body ≡ some content)
      × (model_or_empty (item_at (text "model") body) ≡ model)
from_body-eq (rejected why) content model h = cc
from_body-eq (parsed body) content model h =
    let (q, m) = from_content-eq body (content_of body) content model h in (body, refl, q, m)

module _ (json_loads : Text → Parsed Json) (content model : Json) where
  from_posted_iff :
      (posted : Posted)
      → (from_posted json_loads posted ≡ completed content model)
        ↔ IsCompletion posted json_loads content model
  from_posted_iff posted = (reads posted, given)
    where
      reads :
          (posted : Posted)
          → from_posted json_loads posted ≡ completed content model
          → IsCompletion posted json_loads content model
      reads (http_error why) h = cc
      reads (responded t) h =
          let (body, q, c, m) = from_body-eq (json_loads t) content model h in
          record {
            body_text = t;
            has_responded = refl;
            body = body;
            is_json = q;
            is_answer = (content_of_iff body content).0 c;
            has_model = m;
          }

      given :
          IsCompletion posted json_loads content model
          → from_posted json_loads posted ≡ completed content model
      given a =
          let c = (content_of_iff a.body content).1 a.is_answer in
          rw (a.has_responded, a.is_json, c, a.has_model) refl

  -- `complete_json` gives a content and a model exactly when the request is answered without an HTTP
  -- error, the body is JSON, and it is an object that has the content where the provider puts it.
  pub complete_json_iff :
      (settings : Settings) (schema : Json) (schema_text : Text) (post : Request → Posted)
      (p : UserPrompt)
      → (complete_json settings schema schema_text post json_loads p ≡ completed content model)
        ↔ IsCompletion (post (request_for settings schema schema_text p)) json_loads content model
  unfolding complete_json
  complete_json_iff settings schema schema_text post p = from_posted_iff _
