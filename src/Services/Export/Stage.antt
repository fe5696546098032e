-- ===== src/Services/Export/Stage.antt =====
-- What the export stage does to an invoice and to the storage, on every branch.
use ai_account_payable_invoi.Prelude.{
  ℕ, ◌≡◌, ◌≢◌, refl, sym, ap, ◌∙◌, true, false, Bool-cases, Option, none, some, Option-cases, [],
  ◌∷◌, ◌++◌, ◌==◌, list_eq, nat_eq, arith, inl, inr,
}
use ai_account_payable_invoi.Text.{Text}
use ai_account_payable_invoi.Domain.State.{
  InvoiceStatus, received, exporting, exported, failed, status_eq, can_transition,
}
use ai_account_payable_invoi.Domain.Extraction.{ExtractedInvoice, ExtractionResult}
use ai_account_payable_invoi.Domain.Export.{Bytes, verify_signature, sign_payload}
use ai_account_payable_invoi.Models
use ai_account_payable_invoi.Models.{Invoice, Tables, Reason}
use ai_account_payable_invoi.Services.Outcome.{
  Result, ok, raised, >>=-eq-ok, illegal_transition, Error,
}
use ai_account_payable_invoi.Services.Session.{Objects, get_object, put_object}
use ai_account_payable_invoi.Services.Lifecycle.{advance, system}
use ai_account_payable_invoi.Services.Lifecycle.History.{
  Extends-trans, advance_iff, moved, moved-Extends, ok-injective, moved_with, Leaves,
}
use ai_account_payable_invoi.Services.Matching.{extracted_result}
use ai_account_payable_invoi.Services.Matching.Stage.{give_up-raises}
use ai_account_payable_invoi.Services.Export.{
  Signer, put_artifact, is_exportable, payload_for, export_row, send, write_export, export_stage,
}

no_exit : (s : InvoiceStatus) → is_exportable s ≡ true → can_transition s failed ≡ false
unfolding can_transition
no_exit received h = ground arith
no_exit s h = ground arith

-- On an approved invoice without extracted data, the stage raises for the illegal move to
-- FAILED, so that the invoice stays as it is.
pub export_stage_without_data :
    (signer : Signer) (tables : Tables) (objects : Objects) (v : Invoice)
    → is_exportable v.status ≡ true
    → extracted_result v ≡ none
    → export_stage signer tables objects v ≡ raised (illegal_transition v.status failed)
unfolding export_stage
export_stage_without_data signer tables objects v at q =
    let why = Reason.nothing_to_export in
    let stops = give_up-raises {A = Models.Export} v why (no_exit v.status at) in
    rw (at, q, stops) refl

-- The invoice once the export has begun.
abbrev pub begun : Invoice → Invoice
begun v = moved v exporting system (some Reason.starting_export)

-- The stored bytes are those of the artifact, the signature verifies them, and no other object changed.
pub record Delivers (signer : Signer) (tables : Tables) (v : Invoice) (e : ExtractedInvoice)
    (x : Models.Export) (before after : Objects) : Type 0 where
  pub bytes : Bytes
  pub artifact : bytes ≡ signer.encode (payload_for signer tables (begun v) v.status e)
  pub stored : get_object x.storage_key after ≡ some bytes
  pub signed :
      verify_signature signer.hmac_sha256 bytes signer.export_signing_secret x.signature ≡ true
  pub others : (key : Text) → key ≢ x.storage_key → get_object key after ≡ get_object key before

-- The ways in which the stage returns.
pub data ExportRun (signer : Signer) (tables : Tables) (v w : Invoice) (row : Option Models.Export)
    (before after : Objects) : Type 0 where
  untouched :
      is_exportable v.status ≡ false
      → row ≡ none
      → w ≡ v
      → after ≡ before
      → ExportRun signer tables v w row before after
  sent :
      (r : ExtractionResult) (x : Models.Export)
      → is_exportable v.status ≡ true
      → extracted_result v ≡ some r
      → row ≡ some x
      → Delivers signer tables v r.invoice x before after
      → Leaves v w exported v.extractions v.matches v.validations (v.exports ++ (x ∷ []))
      → ExportRun signer tables v w row before after

raised_not_ok {ℓ} : {A : Type ℓ} {r : Result A} {x : Error} {a : A} → r ≡ raised x → r ≡ ok a → ⊥
raised_not_ok p q = cc

pub get_object-put_same :
    (key : Text) (bytes : Bytes) (objects : Objects)
    → get_object key (put_object key bytes objects) ≡ some bytes
unfolding get_object
get_object-put_same key bytes objects = rw ((list_eq.beq_iff key key).1 refl) refl

pub get_object-put_other :
    (key k : Text) (bytes : Bytes) (objects : Objects)
    → key ≢ k
    → get_object key (put_object k bytes objects) ≡ get_object key objects
unfolding get_object
get_object-put_other key k bytes objects ne = elim (Bool-cases (k == key)) [
  | inl y ↦ absurd (ne (sym ((list_eq.beq_iff k key).0 y)))
  | inr n ↦ rw n refl
]

verifies :
    (hmac : Text → Bytes → Text) (bytes : Bytes) (secret : Text)
    → verify_signature hmac bytes secret (sign_payload hmac bytes secret) ≡ true
unfolding verify_signature
verifies hmac bytes secret =
    ((list_eq {A = ℕ}).beq_iff (sign_payload hmac bytes secret) (sign_payload hmac bytes secret)).1
      refl

put_artifact-eq-ok :
    (signer : Signer) (key : Text) (bytes : Bytes) (objects after : Objects)
    → put_artifact signer key bytes objects ≡ ok after
    → put_object key bytes objects ≡ after
put_artifact-eq-ok signer key bytes objects after h =
    elim (Option-cases (signer.put_fault key bytes)) [
      | inl q ↦ ok-injective (rw (put_artifact, q) at h)
      | inr (why, q) ↦ let e = rw (put_artifact, q) at h in cc
    ]

send-moves :
    (signer : Signer) (tables : Tables) (objects after : Objects) (s : InvoiceStatus)
    (e : ExtractedInvoice) (v w : Invoice) (row : Option Models.Export)
    → send signer tables objects s e v ≡ ok (row, w, after)
    → let bytes = signer.encode (payload_for signer tables v s e) in
      let x = export_row signer bytes v.id in
      (can_transition v.status exported ≡ true)
      × (some x ≡ row)
      × (moved
            (record v { exports = v.exports ++ (x ∷ []) })
            exported
            system
            (some (Reason.exported_to x.storage_key))
          ≡ w)
      × (put_object x.storage_key bytes objects ≡ after)
unfolding send
send-moves signer tables objects after s e v w row h =
    let (objects', put, rest) = >>=-eq-ok (put_artifact signer _ _ objects) _ h in
    let (last, moves, done) = >>=-eq-ok (advance _ _ _ _) _ rest in
    let (legal, same) = (advance_iff _ last exported system _).0 moves in
    let triple = ok-injective done in
    (
      legal,
      ap (λ p. p.0) triple,
      same ∙ ap (λ p. p.1) triple,
      put_artifact-eq-ok signer _ _ objects objects' put ∙ ap (λ p. p.2) triple,
    )

write_export-sent :
    (signer : Signer) (tables : Tables) (objects after : Objects) (v w : Invoice)
    (r : ExtractionResult) (row : Option Models.Export)
    → is_exportable v.status ≡ true
    → extracted_result v ≡ some r
    → write_export signer tables objects v r.invoice ≡ ok (row, w, after)
    → ExportRun signer tables v w row objects after
unfolding write_export export_row
write_export-sent signer tables objects after v w r row at q h =
    let first = some Reason.starting_export in
    let (started, moves, rest) = >>=-eq-ok (advance _ _ _ _) _ h in
    let (legal, same) = (advance_iff v started exporting system _).0 moves in
    let rest' : send signer tables objects v.status r.invoice (begun v) ≡ ok (row, w, after) =
      rw (← same) at rest in
    let (legal', row_is, w_is, after_is) =
      send-moves signer tables objects after v.status r.invoice (begun v) w row rest' in
    rw (← row_is, ← w_is, ← after_is)
      (sent r _ at q refl
        (record {
          bytes = _;
          artifact = refl;
          stored = get_object-put_same _ _ objects;
          signed = verifies signer.hmac_sha256 _ signer.export_signing_secret;
          others = λ key ne. get_object-put_other key _ _ objects ne;
        })
        (record {
          logged =
              Extends-trans (moved-Extends v exporting system first legal)
                (moved_with (begun v) _ exported system _ refl refl refl refl legal');
          ends = refl;
          extractions = refl;
          matches = refl;
          validations = refl;
          exports = refl;
        }))

-- A run of the export that returns either met an invoice that is not approved, and changed
-- nothing; or stored the artifact of the invoice's extracted data under the new row's key, with
-- a signature that verifies, changed no other object, and left the invoice EXPORTED with that
-- row added and a log that accounts for the move.
pub export_stage-ExportRun :
    (signer : Signer) (tables : Tables) (objects after : Objects) (v w : Invoice)
    (row : Option Models.Export)
    → export_stage signer tables objects v ≡ ok (row, w, after)
    → ExportRun signer tables v w row objects after
unfolding export_stage
export_stage-ExportRun signer tables objects after v w row h =
    elim (Bool-cases (is_exportable v.status)) [
      | inl y ↦ elim (Option-cases (extracted_result v)) [
        | inl q ↦ absurd (raised_not_ok (export_stage_without_data signer tables objects v y q) h)
        | inr (r, q) ↦ write_export-sent signer tables objects after v w r row y q (rw (y, q) at h)
      ]
      | inr n ↦
          let triple = ok-injective (rw n at h) in
          untouched n (sym (ap (λ p. p.0) triple)) (sym (ap (λ p. p.1) triple))
            (sym (ap (λ p. p.2) triple))
    ]
