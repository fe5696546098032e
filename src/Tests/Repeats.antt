-- ===== src/Tests/Repeats.antt =====
-- The same bytes, uploaded again after their extraction.
use ai_account_payable_invoi.Prelude.{none, some, [], ◌∷◌}
use ai_account_payable_invoi.Text.{Text, text}
use ai_account_payable_invoi.Api.Bodies.{UploadFile}

abbrev first_file : UploadFile
first_file = record {
  content_type = some "application/pdf";
  filename = some (text "a.pdf");
  bytes = 1 ∷ 2 ∷ 3 ∷ [];
}

abbrev same_file : UploadFile
same_file = record first_file { content_type = some "image/png"; filename = none }
