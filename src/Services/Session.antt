-- ===== src/Services/Session.antt =====
-- A service's frame: the invoice is fetched by its id, changed, and flushed; a missing one raises.
pub mod Frame
use ai_account_payable_invoi.Prelude.{
  ℕ, Option, none, some, List, [], ◌∷◌, ◌==◌, list_eq, nat_eq, if◌then◌else◌,
}
use ai_account_payable_invoi.Text.{Text}
use ai_account_payable_invoi.Domain.Export.{Bytes}
use ai_account_payable_invoi.Models.{Invoice, Tables, find_invoice, store_invoice}
use ai_account_payable_invoi.Services.Outcome.{Result, invoice_not_found, or_raise, ◌>>=◌, ok}

unfoldable pub on_invoice {ℓ} :
    {A : Type ℓ} → (Invoice → Result (A × Invoice)) → ℕ → Tables → Result (A × Tables)
on_invoice stage id tables = do
  invoice ← or_raise (find_invoice id tables.invoices) (invoice_not_found id)
  (row, invoice') ← stage invoice
  ok (row, record tables { invoices = store_invoice invoice' tables.invoices })

-- Object storage: what was put last under a key stands first.
abbrev pub Objects : Type 0
Objects = List (Text × Bytes)

unfoldable pub get_object : Text → Objects → Option Bytes
get_object key [] = none
get_object key ((k, v) ∷ objects) = if k == key then some v else get_object key objects

abbrev pub put_object : Text → Bytes → Objects → Objects
put_object key value objects = (key, value) ∷ objects
