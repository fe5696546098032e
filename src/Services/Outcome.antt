-- ===== src/Services/Outcome.antt =====
-- A call that may raise: its value, or the exception. A service that raises has changed nothing that
-- lasts, since the session that it ran in is rolled back.
use ai_account_payable_invoi.Prelude.{ℕ, ◌≡◌, refl, ◌⊎◌, inl, inr, Option, none, some}
use ai_account_payable_invoi.Text.{Text}
use ai_account_payable_invoi.Domain.State.{InvoiceStatus}

pub data Error : Type 0 where
  -- ValueError
  invoice_not_found : ℕ → Error
  unsupported_content_type : Error
  -- RuntimeError, from `advance`
  illegal_transition : InvoiceStatus → InvoiceStatus → Error
  -- what the storage, the PDF reader and the model's client raise
  missing_object unreadable_document : Error
  -- what the storage raises at a put, and the decimal module in a rule
  storage_error : Text → Error
  decimal_overflow : Error
  -- a row that breaks a unique constraint
  integrity_error : Error
  llm_error : Text → Error

pub data Result {ℓ} (T : Type ℓ) : Type ℓ where
  raised : Error → Result T
  ok : T → Result T

abbrev pub or_raise {ℓ} : {T : Type ℓ} → Option T → Error → Result T
or_raise none why = raised why
or_raise (some value) why = ok value

abbrev pub ◌>>=◌ {ℓ κ} : {T : Type ℓ} {S : Type κ} → Result T → (T → Result S) → Result S
raised why >>= next = raised why
ok value >>= next = next value

infixl 5 ◌>>=◌
-- Inversion of a call that returns.
pub >>=-eq-ok {ℓ κ} :
    {T : Type ℓ} {S : Type κ} (call : Result T) (next : T → Result S) {out : S}
    → (call >>= next) ≡ ok out
    → (value : T) × (call ≡ ok value) × (next value ≡ ok out)
>>=-eq-ok (raised why) next h = cc
>>=-eq-ok (ok value) next h = (value, refl, h)

pub Result-cases {ℓ} :
    {T : Type ℓ} (r : Result T) → ((why : Error) × (r ≡ raised why)) ⊎ ((a : T) × (r ≡ ok a))
Result-cases (raised why) = inl (why, refl)
Result-cases (ok a) = inr (a, refl)
