-- ===== src/Tests/Hindered.antt =====
-- An extraction whose model's client raises, and an export that the storage does not take.
use ai_account_payable_invoi.Prelude.{false, ◌∷◌, ◌≡◌, ◌↔◌, refl, some, []}
use ai_account_payable_invoi.Text.{Text, text}
use ai_account_payable_invoi.Models.{find_invoice}
use ai_account_payable_invoi.Services.Extraction.{Llm, failed_call}
use ai_account_payable_invoi.Domain.State.{approved}
use ai_account_payable_invoi.Services.Extraction.{latest_successful_extraction}
use ai_account_payable_invoi.Services.Matching.{extracted_result}
use ai_account_payable_invoi.Workers.Refused.{put_answer, export_invoice_idle_iff}
use ai_account_payable_invoi.Workers.{System, Surroundings, export_invoice}
use ai_account_payable_invoi.Tests.Data.{
  runtime, same_or_not, signer, tables, objects, with_rows, acme_result,
}

abbrev unavailable : Llm
unavailable n prompt = failed_call (text "503")

abbrev env : Surroundings Text
env = record {
  runtime = runtime;
  llm = some unavailable;
  ratio = same_or_not;
  signer = signer;
  overflows = λ inp. false;
}

abbrev waiting : System
waiting = record { tables = tables; objects = objects; tasks = [] }

-- An approved invoice, and a storage that is full.
abbrev full : Surroundings Text
full = record env { signer = record signer { put_fault = λ key bytes. some (text "full") } }

abbrev approved_one : System
approved_one = record waiting { tables = record tables { invoices = with_rows approved ∷ [] } }

export_invoice_idle_iff_example :
    (export_invoice full 5 approved_one ≡ approved_one)
    ↔ ((why : Text) × (put_answer full approved_one (with_rows approved) acme_result ≡ some why))
unfolding find_invoice extracted_result latest_successful_extraction
export_invoice_idle_iff_example =
    export_invoice_idle_iff full 5 approved_one (with_rows approved) acme_result refl refl refl
