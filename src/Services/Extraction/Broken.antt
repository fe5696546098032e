-- ===== src/Services/Extraction/Broken.antt =====
-- The attempts at an extraction that raise instead of failing the invoice: the stored object cannot be
-- read, or the model's client raises.
use ai_account_payable_invoi.Prelude.{
  ◌↔◌, ◌==◌, ◌≢◌, inl, inr, Bool-cases, Option-cases, ℕ, ◌≡◌, refl, false, Option, none, some,
}
use ai_account_payable_invoi.Text.{Text}
use ai_account_payable_invoi.Domain.State.{
  status_beq_iff, can_transition, received, extracting, status_eq,
}
use ai_account_payable_invoi.Models.{Invoice, Reason, TextMethod}
use ai_account_payable_invoi.Services.Outcome.{
  Error, Result, ok, raised, Result-cases, missing_object, llm_error,
}
use ai_account_payable_invoi.Services.Session.{Objects, get_object}
use ai_account_payable_invoi.Services.Documents.{DocumentText, extract_text, is_blank}
use ai_account_payable_invoi.Services.Lifecycle.{advance, system}
use ai_account_payable_invoi.Services.Lifecycle.History.{moved}
use ai_account_payable_invoi.Services.Extraction.{
  Llm, Runtime, broken, extract_with_retry, extraction_stage, begin_extraction, read_document,
  extract_document, finish_extraction, fail_extraction, keep_extraction, client, RetryOutcome,
  Ending, accepted, exhausted,
}
use ai_account_payable_invoi.Domain.Export.{Bytes}

-- A received invoice whose extraction has begun.
abbrev started : Invoice → Invoice
started v =
    moved (record v { status = received }) extracting system (some Reason.starting_extraction)

raised-injective {ℓ} : {A : Type ℓ} {a b : Error} → Path (Result A) (raised a) (raised b) → a ≡ b
raised-injective e = cc

module _ {Json : Type 0} (rt : Runtime Json) (objects : Objects) (llm : Option Llm) where
  -- What stands in the way of an extraction, and the error that it raises.
  pub data Hindrance (v : Invoice) : Error → Type 0 where
    object_lost : get_object v.storage_key objects ≡ none → Hindrance v missing_object
    not_a_document :
        {bytes : Bytes} {why : Error}
        → get_object v.storage_key objects ≡ some bytes
        → extract_text rt.unicode rt.pdf_pages bytes v.content_type ≡ raised why
        → Hindrance v why
    client_raises :
        {bytes : Bytes} {document : DocumentText} {c : Llm} {why : Text}
        → get_object v.storage_key objects ≡ some bytes
        → extract_text rt.unicode rt.pdf_pages bytes v.content_type ≡ ok document
        → is_blank rt.unicode document ≡ false
        → client rt llm ≡ some c
        → extract_with_retry rt c document.content rt.settings.llm_max_retries ≡ broken why
        → Hindrance v (llm_error why)

  fail_extraction-Returns :
      (v : Invoice) (method : TextMethod) (reason : Reason) (n : ℕ) (raw : Option Text)
      (why : Error)
      → v.status ≡ extracting
      → fail_extraction rt v method reason n raw ≢ raised why
  unfolding fail_extraction advance can_transition
  fail_extraction-Returns v method reason n raw why s e = let e' = rw s at e in cc

  keep_extraction-Returns :
      (v : Invoice) (method : TextMethod) (outcome : RetryOutcome) (why : Error)
      → v.status ≡ extracting
      → keep_extraction rt v method outcome ≢ raised why
  unfolding keep_extraction advance can_transition
  keep_extraction-Returns v method outcome why s e = let e' = rw s at e in cc

  finish_extraction-raised :
      (v : Invoice) (method : TextMethod) (ending : Ending) (why : Error)
      → v.status ≡ extracting
      → finish_extraction rt v method ending ≡ raised why
      → (text : Text) × (ending ≡ broken text) × (llm_error text ≡ why)
  unfolding finish_extraction
  finish_extraction-raised v method (accepted outcome) why s e =
      absurd (keep_extraction-Returns v method outcome why s e)
  finish_extraction-raised v method (exhausted errors n raw) why s e =
      absurd (fail_extraction-Returns v method _ n (some raw) why s e)
  finish_extraction-raised v method (broken text) why s e = (text, refl, cc)

  pub extraction_stage-raised :
      (v : Invoice) (why : Error)
      → v.status ≡ received
      → Hindrance v why
      → extraction_stage rt objects llm v ≡ raised why
  unfolding extraction_stage begin_extraction read_document extract_document finish_extraction
      advance can_transition
  extraction_stage-raised v _ s (object_lost h) = rw (s, h) refl
  extraction_stage-raised v _ s (not_a_document h k) = rw (s, h, k) refl
  extraction_stage-raised v _ s (client_raises h k b c q) = rw (s, h, k, b, c, q) refl

  -- An attempt that reads the document raises only by the client.
  extract_document-raised :
      (v begun : Invoice) (bytes : Bytes) (document : DocumentText) (why : Error)
      → get_object v.storage_key objects ≡ some bytes
      → extract_text rt.unicode rt.pdf_pages bytes v.content_type ≡ ok document
      → begun.status ≡ extracting
      → extract_document rt llm begun document ≡ raised why
      → Hindrance v why
  unfolding extract_document
  extract_document-raised v begun bytes document why h k s e =
      elim (Bool-cases (is_blank rt.unicode document)) [
        | inl y ↦ absurd (fail_extraction-Returns begun _ _ _ _ why s (rw y at e))
        | inr b ↦ elim (Option-cases (client rt llm)) [
          | inl n ↦ absurd (fail_extraction-Returns begun _ _ _ _ why s (rw (b, n) at e))
          | inr (c, is) ↦
              let (text, ends, same) = finish_extraction-raised begun _ _ why s (rw (b, is) at e) in
              rw (← same) (client_raises h k b is ends)
        ]
      ]

  -- The extraction raises exactly where a received invoice's extraction is hindered.
  pub extraction_stage-raised_iff :
      (v : Invoice) (why : Error)
      → (extraction_stage rt objects llm v ≡ raised why) ↔ ((v.status ≡ received) × Hindrance v why)
  unfolding extraction_stage begin_extraction read_document advance can_transition
  extraction_stage-raised_iff v why = (
    λ e. elim (Bool-cases (v.status == received)) [
      | inl y ↦
          let s : v.status ≡ received = (status_beq_iff v.status received).0 y in
          let begun = rw s at e in
          (
            s,
            elim (Option-cases (get_object v.storage_key objects)) [
              | inl n ↦ let e' = rw n at begun in rw (← raised-injective e') (object_lost n)
              | inr (bytes, h) ↦
                  elim (Result-cases (extract_text rt.unicode rt.pdf_pages bytes v.content_type)) [
                    | inl (why', k) ↦
                        let e' = rw (h, k) at begun in
                        rw (← raised-injective e') (not_a_document h k)
                    | inr (document, k) ↦
                        extract_document-raised v (started v) bytes document why h k refl
                          (rw (h, k) at begun)
                  ]
            ],
          )
      | inr n ↦ let e' = rw n at e in cc
    ],
    λ (s, h). extraction_stage-raised v why s h,
  )
