-- ===== src/Services/Returns.antt =====
-- Which stages return: none raises on an invoice that has the data which the stage reads.
use ai_account_payable_invoi.Prelude.{
  ◌≡◌, refl, sym, ap, Bool, true, false, Bool-cases, Option, none, some, Option-cases, inl, inr,
  ◌==◌, arith,
}
use ai_account_payable_invoi.Text.{Text, Unicode}
use ai_account_payable_invoi.Float.{Float}
use ai_account_payable_invoi.Domain.State.{
  InvoiceStatus, extracted, matching, validating, validated, failed, exporting, exported, received,
  status_eq, can_transition,
}
use ai_account_payable_invoi.Domain.Export.{Bytes}
use ai_account_payable_invoi.Domain.Validation.{ValidationInput}
use ai_account_payable_invoi.Domain.Extraction.{ExtractedInvoice, ExtractionResult}
use ai_account_payable_invoi.Models
use ai_account_payable_invoi.Models.{Invoice, InvoiceMatch, Tables, Reason}
use ai_account_payable_invoi.Services.Outcome.{Result, ok, ◌>>=◌}
use ai_account_payable_invoi.Services.Lifecycle.{advance, system}
use ai_account_payable_invoi.Services.Lifecycle.History.{advance_iff, moved}
use ai_account_payable_invoi.Services.Matching.{
  give_up, extracted_result, record_match, matching_stage,
}
use ai_account_payable_invoi.Services.Extraction.{latest_successful_extraction}
use ai_account_payable_invoi.Services.Approval.{
  approval_stage, record_decision, decision_for, latest_validation,
}
use ai_account_payable_invoi.Services.Session.{Objects, put_object}
use ai_account_payable_invoi.Services.Approval.Stage.{decision_for-cases}
use ai_account_payable_invoi.Services.Export.{
  Signer, export_key, payload_for, put_artifact, is_exportable, send, write_export, export_stage,
}
use ai_account_payable_invoi.Services.Export.Stage.{begun}
use ai_account_payable_invoi.Services.Validation.{
  record_validation, validation_stage, checked_stage,
}
use ai_account_payable_invoi.Services.Validation.Overflow.{overflows_at-none}

abbrev pub Returns {ℓ} : {A : Type ℓ} → Result A → Type ℓ
Returns {A = A} r = (a : A) × (r ≡ ok a)

then-Returns {ℓ κ} :
    {A : Type ℓ} {B : Type κ} (m : Result A) (f : A → Result B)
    → Returns m
    → ((a : A) → m ≡ ok a → Returns (f a))
    → Returns (m >>= f)
then-Returns m f (a, e) k = let (b, d) = k a e in (b, rw e d)

move-Returns :
    (v : Invoice) (target : InvoiceStatus) (actor : Text) (reason : Option Reason)
    → can_transition v.status target ≡ true
    → Returns (advance v target actor reason)
move-Returns v target actor reason h =
    (moved v target actor reason, (advance_iff v _ target actor reason).1 (h, refl))

status_after :
    (v w : Invoice) (target : InvoiceStatus) (actor : Text) (reason : Option Reason)
    → advance v target actor reason ≡ ok w
    → w.status ≡ target
status_after v w target actor reason e =
    ap (λ (x : Invoice). x.status) (sym ((advance_iff v w target actor reason).0 e).1)

give_up-Returns {ℓ} :
    {A : Type ℓ} (v : Invoice) (why : Reason)
    → can_transition v.status failed ≡ true
    → Returns (give_up {A = A} v why)
unfolding give_up
give_up-Returns v why h = then-Returns _ _ (move-Returns _ _ _ _ h) (λ w e. (_, refl))

legal_from : (s t u : InvoiceStatus) → s ≡ t → can_transition t u ≡ true → can_transition s u ≡ true
legal_from s t u e h = rw e h

module _ (u : Unicode) (ratio : Text → Text → Float) (tables : Tables) where
  record_match-Returns :
      (v : Invoice) (e : ExtractedInvoice)
      → v.status ≡ extracted
      → Returns (record_match u ratio tables v e)
  unfolding record_match can_transition
  record_match-Returns v e at =
      then-Returns _ _ (move-Returns v _ _ _ (legal_from v.status extracted matching at refl))
        (λ w q.
          then-Returns _ _
            (move-Returns _ _ _ _
              (legal_from w.status matching validating (status_after _ _ _ _ _ q) refl))
            (λ x _. (_, refl)))

  -- The matching stage never raises, on any invoice and any tables.
  pub matching_stage-Returns : (v : Invoice) → Returns (matching_stage u ratio tables v)
  unfolding matching_stage can_transition
  matching_stage-Returns v = elim (Bool-cases (v.status == extracted)) [
    | inr n ↦ ((none, v), rw n refl)
    | inl y ↦
        let at = (status_eq.beq_iff v.status extracted).0 y in
        elim (Option-cases (extracted_result v)) [
          | inl q ↦
              rw (matching_stage, y, q)
                (give_up-Returns v _ (legal_from v.status extracted failed at refl))
          | inr (r, q) ↦ rw (matching_stage, y, q) (record_match-Returns v r.invoice at)
        ]
  ]

module _ (u : Unicode) (tables : Tables) where
  record_validation-Returns :
      (v : Invoice) (e : ExtractedInvoice)
      → v.status ≡ validating
      → Returns (record_validation u tables v e)
  unfolding record_validation can_transition
  record_validation-Returns v e at =
      then-Returns _ _ (move-Returns _ _ _ _ (legal_from v.status validating validated at refl))
        (λ x _. (_, refl))

  -- In exact arithmetic the validation stage never raises, on any invoice and any tables.
  pub validation_stage-Returns : (v : Invoice) → Returns (validation_stage u tables v)
  unfolding validation_stage can_transition
  validation_stage-Returns v = elim (Bool-cases (v.status == validating)) [
    | inr n ↦ ((none, v), rw n refl)
    | inl y ↦
        let at = (status_eq.beq_iff v.status validating).0 y in
        elim (Option-cases (extracted_result v)) [
          | inl q ↦
              rw (validation_stage, y, q)
                (give_up-Returns v _ (legal_from v.status validating failed at refl))
          | inr (r, q) ↦ rw (validation_stage, y, q) (record_validation-Returns v r.invoice at)
        ]
  ]

  -- So does the stage with its decimals, if no rule's arithmetic overflows.
  pub checked_stage-Returns :
      (overflows : ValidationInput → Bool) (v : Invoice)
      → ((inp : ValidationInput) → overflows inp ≡ false)
      → Returns (checked_stage u overflows tables v)
  unfolding checked_stage
  checked_stage-Returns overflows v none_does =
      rw (overflows_at-none u overflows tables v none_does) (validation_stage-Returns v)

decision_open :
    (v : Invoice) (x : Models.Validation) (e : Models.Extraction)
    → can_transition validated (decision_for v x e).outcome ≡ true
unfolding can_transition
decision_open v x e = elim (decision_for-cases v x e) [ inl a ↦ rw a refl | inr r ↦ rw r refl ]

-- The approval stage returns, at any status, whenever the invoice has a validation and a
-- successful extraction.
pub approval_stage-Returns :
    (v : Invoice) (x : Models.Validation) (e : Models.Extraction)
    → latest_validation v ≡ some x
    → latest_successful_extraction v ≡ some e
    → Returns (approval_stage v)
unfolding approval_stage record_decision
approval_stage-Returns v x e p q = elim (Bool-cases (v.status == validated)) [
  | inr n ↦ ((none, v), rw n refl)
  | inl y ↦
      let at = (status_eq.beq_iff v.status validated).0 y in
      let decided : Returns (record_decision v x e) =
        then-Returns _ _
          (move-Returns _ _ _ _
            (legal_from v.status validated (decision_for v x e).outcome at (decision_open v x e)))
          (λ w _. (_, refl)) in
      rw (approval_stage, y, p, q) decided
]

pub exportable_open :
    (s : InvoiceStatus) → is_exportable s ≡ true → can_transition s exporting ≡ true
unfolding can_transition
exportable_open received h = ground arith
exportable_open s h = ground arith

-- The storage raises at no put of an artifact.
abbrev pub Takes : Signer → Type 0
Takes signer = (key : Text) (bytes : Bytes) → signer.put_fault key bytes ≡ none

put_artifact-Returns :
    (signer : Signer) (key : Text) (bytes : Bytes) (objects : Objects)
    → signer.put_fault key bytes ≡ none
    → Returns (put_artifact signer key bytes objects)
put_artifact-Returns signer key bytes objects takes =
    (put_object key bytes objects, rw (put_artifact, takes) refl)

send-Returns :
    (signer : Signer) (tables : Tables) (objects : Objects) (s : InvoiceStatus)
    (e : ExtractedInvoice) (v : Invoice)
    → signer.put_fault (export_key signer v.id) (signer.encode (payload_for signer tables v s e))
      ≡ none
    → v.status ≡ exporting
    → Returns (send signer tables objects s e v)
unfolding send can_transition
send-Returns signer tables objects s e v takes at =
    then-Returns (put_artifact signer _ _ objects) _ (put_artifact-Returns signer _ _ objects takes)
      (λ objects' _.
        then-Returns (advance _ _ _ _) _
          (move-Returns _ _ _ _ (legal_from v.status exporting exported at refl))
          (λ w _. (_, refl)))

-- The export stage returns, at any status, whenever the invoice has extracted data and the storage
-- takes the artifact.
pub export_stage-Returns :
    (signer : Signer) (tables : Tables) (objects : Objects) (v : Invoice) (r : ExtractionResult)
    → signer.put_fault
        (export_key signer v.id)
        (signer.encode (payload_for signer tables (begun v) v.status r.invoice))
      ≡ none
    → extracted_result v ≡ some r
    → Returns (export_stage signer tables objects v)
unfolding export_stage write_export
export_stage-Returns signer tables objects v r takes q =
    elim (Bool-cases (is_exportable v.status)) [
      | inr n ↦ ((none, v, objects), rw n refl)
      | inl y ↦
          let written : Returns (write_export signer tables objects v r.invoice) =
            then-Returns (advance _ _ _ _) _ (move-Returns _ _ _ _ (exportable_open v.status y))
              (λ w e.
                let same = ((advance_iff v w exporting system _).0 e).1 in
                rw (← same)
                  (send-Returns signer tables objects v.status r.invoice (begun v) takes refl)) in
          rw (export_stage, y, q) written
    ]
