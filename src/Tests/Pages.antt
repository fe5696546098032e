-- ===== src/Tests/Pages.antt =====
-- Requests to the JSON interface and to the review pages.
use ai_account_payable_invoi.Prelude.{◌≡◌, ◌↔◌, refl, true, false, none, some, [], ◌∷◌}
use ai_account_payable_invoi.Text.{Text, text, strip}
use ai_account_payable_invoi.Domain.State.{status_eq, needs_review, rejected}
use ai_account_payable_invoi.Domain.Export.{Bytes}
use ai_account_payable_invoi.Models.{find_invoice}
use ai_account_payable_invoi.Workers.{System}
use ai_account_payable_invoi.Api.{responds}
use ai_account_payable_invoi.Api.Bodies.{InvoiceOut, ReviewDecisionIn, UploadFile}
use ai_account_payable_invoi.Api.Invoices.{record_decision}
use ai_account_payable_invoi.Api.Decisions.{answer_to, record_decision_lem}
use ai_account_payable_invoi.Api.Views.{detail_page, ui_invoice_detail}
use ai_account_payable_invoi.Api.ReviewUi.{clean_actor, clean_reason, ui_decide}
use ai_account_payable_invoi.Api.Review.{leads_to, ui_decide_lem, can_decide_iff}
use ai_account_payable_invoi.Tests.Data.{ascii, with_rows, fresh, tables}

abbrev digest : Bytes → Text
digest bytes = bytes

-- One invoice waits for review, another was rejected.
abbrev waiting : System
waiting = record {
  tables = record tables {
    invoices = with_rows needs_review ∷ record fresh { id = 6; status = rejected } ∷ [];
  };
  objects = [];
  tasks = [];
}

abbrev by_ann : ReviewDecisionIn
by_ann = record { actor = text "ann"; reason = none }

record_decision_lem_example :
    record_decision true 6 by_ann waiting
    ≡ answer_to true by_ann 6 waiting (find_invoice 6 waiting.tables.invoices)
record_decision_lem_example = record_decision_lem true 6 by_ann waiting

abbrev pdf : UploadFile
pdf = record {
  content_type = some "application/pdf";
  filename = some (text "b.pdf");
  bytes = 7 ∷ 8 ∷ [];
}

abbrev png : UploadFile
png = record pdf { content_type = some "image/png"; filename = none }

ui_decide_lem_example :
    ui_decide ascii true 5 (text " ann ") [] waiting
    ≡ leads_to true
        (clean_actor (strip ascii (text " ann ")))
        (clean_reason (strip ascii []))
        5
        waiting
        (find_invoice 5 waiting.tables.invoices)
ui_decide_lem_example = ui_decide_lem ascii true 5 (text " ann ") [] waiting

shown :
    ui_invoice_detail 5 waiting.tables
    ≡ responds 200 (detail_page waiting.tables (with_rows needs_review))
unfolding ui_invoice_detail find_invoice
shown = refl

can_decide_iff_example :
    ((detail_page waiting.tables (with_rows needs_review)).can_decide ≡ true) ↔ (
      (out : InvoiceOut) × (after : System) × (record_decision false 5 by_ann waiting
        ≡ (responds 200 out, after)))
can_decide_iff_example =
    can_decide_iff false 5 by_ann waiting (detail_page waiting.tables (with_rows needs_review))
      shown
