-- ===== src/Domain/State.antt =====
-- The invoice lifecycle, src/invoice_ops/domain/state.py. A status set is a list, and `in` is
-- membership; `transitions` is the dict, with `none` for a missing key.
pub mod Trails
use mathlib.Core.Option.{get_or}
use Prim.Native.String.{String}
use ai_account_payable_invoi.Prelude.{
  ℕ, ◌≡◌, ◌↔◌, Bool, true, false, Option, none, some, List, [], ◌∷◌, arith, nat_beq, nat_beq_iff,
  sym, ap, ◌∙◌, refl, if◌then◌else◌, Eq, keep, contains,
}

pub data InvoiceStatus : Type 0 where
  received extracting extracted matching validating validated needs_review auto_approved approved
        rejected exporting exported failed :
      InvoiceStatus

-- Position in the enumeration, by which two statuses are compared.
abbrev pub ordinal : InvoiceStatus → ℕ
ordinal received = 0
ordinal extracting = 1
ordinal extracted = 2
ordinal matching = 3
ordinal validating = 4
ordinal validated = 5
ordinal needs_review = 6
ordinal auto_approved = 7
ordinal approved = 8
ordinal rejected = 9
ordinal exporting = 10
ordinal exported = 11
ordinal failed = 12

-- The member's value.
abbrev pub value : InvoiceStatus → String
value received = "received"
value extracting = "extracting"
value extracted = "extracted"
value matching = "matching"
value validating = "validating"
value validated = "validated"
value needs_review = "needs_review"
value auto_approved = "auto_approved"
value approved = "approved"
value rejected = "rejected"
value exporting = "exporting"
value exported = "exported"
value failed = "failed"

at_ordinal : ℕ → InvoiceStatus
at_ordinal n =
    if nat_beq n 0
    then received
    else if nat_beq n 1
    then extracting
    else if nat_beq n 2
    then extracted
    else if nat_beq n 3
    then matching
    else if nat_beq n 4
    then validating
    else if nat_beq n 5
    then validated
    else if nat_beq n 6
    then needs_review
    else if nat_beq n 7
    then auto_approved
    else if nat_beq n 8
    then approved
    else if nat_beq n 9
    then rejected
    else if nat_beq n 10
    then exporting
    else if nat_beq n 11
    then exported
    else failed

at_ordinal-ordinal : (s : InvoiceStatus) → at_ordinal (ordinal s) ≡ s
unfolding at_ordinal
at_ordinal-ordinal received = refl
at_ordinal-ordinal extracting = refl
at_ordinal-ordinal extracted = refl
at_ordinal-ordinal matching = refl
at_ordinal-ordinal validating = refl
at_ordinal-ordinal validated = refl
at_ordinal-ordinal needs_review = refl
at_ordinal-ordinal auto_approved = refl
at_ordinal-ordinal approved = refl
at_ordinal-ordinal rejected = refl
at_ordinal-ordinal exporting = refl
at_ordinal-ordinal exported = refl
at_ordinal-ordinal failed = refl

pub status_beq_iff : (a b : InvoiceStatus) → (nat_beq (ordinal a) (ordinal b) ≡ true) ↔ (a ≡ b)
status_beq_iff a b = (
  λ h. sym (at_ordinal-ordinal a) ∙ ap at_ordinal ((nat_beq_iff _ _).0 h) ∙ at_ordinal-ordinal b,
  λ e. (nat_beq_iff _ _).1 (ap ordinal e),
)

instance abbrev pub status_eq : Eq InvoiceStatus
status_eq = record { beq = λ a b. nat_beq (ordinal a) (ordinal b); beq_iff = status_beq_iff }

abbrev pub all_statuses : List InvoiceStatus
all_statuses =
    received ∷ extracting ∷ extracted ∷ matching ∷ validating ∷ validated ∷ needs_review
    ∷ auto_approved ∷ approved ∷ rejected ∷ exporting ∷ exported ∷ failed ∷ []

unfoldable pub transitions : InvoiceStatus → Option (List InvoiceStatus)
transitions received = some (extracting ∷ failed ∷ [])
transitions extracting = some (extracted ∷ failed ∷ [])
transitions extracted = some (matching ∷ failed ∷ [])
transitions matching = some (validating ∷ failed ∷ [])
transitions validating = some (validated ∷ failed ∷ [])
transitions validated = some (auto_approved ∷ needs_review ∷ [])
transitions needs_review = some (approved ∷ rejected ∷ [])
transitions auto_approved = some (exporting ∷ [])
transitions approved = some (exporting ∷ [])
transitions exporting = some (exported ∷ failed ∷ [])
transitions _ = none

unfoldable pub allowed_transitions : InvoiceStatus → List InvoiceStatus
unfolding transitions
allowed_transitions current = get_or (transitions current) []

unfoldable pub can_transition : InvoiceStatus → InvoiceStatus → Bool
unfolding allowed_transitions
can_transition current target = contains (allowed_transitions current) target

abbrev is_missing : Option (List InvoiceStatus) → Bool
is_missing none = true
is_missing (some _) = false

unfoldable pub terminal_statuses : List InvoiceStatus
unfolding transitions
terminal_statuses = keep (λ s. is_missing (transitions s)) all_statuses

unfoldable pub is_terminal : InvoiceStatus → Bool
unfolding terminal_statuses
is_terminal status = contains terminal_statuses status
