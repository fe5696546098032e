-- ===== src/Tests/Uploads.antt =====
-- Uploads, duplicates, scores and returning stages at concrete values.
use ai_account_payable_invoi.Prelude.{All, ℕ, ◌≡◌, ◌↔◌, refl, false, some, [], ◌∷◌, ◌++◌, string_eq}
use ai_account_payable_invoi.Text.{Text, strip, text}
use ai_account_payable_invoi.Decimal.{Decimal}
use ai_account_payable_invoi.Config.{default_settings}
use ai_account_payable_invoi.Domain.Export.{Bytes}
use ai_account_payable_invoi.Models.{Invoice, pdfplumber}
use ai_account_payable_invoi.Evaluation.Run.{Fixture, run}
use ai_account_payable_invoi.Evaluation.Run.Faithful.{IsAnswered, IsFaithfulRun, run-IsFaithfulRun}
use ai_account_payable_invoi.Services.Outcome.{ok}
use ai_account_payable_invoi.Services.Documents.{extract_text, is_blank}
use ai_account_payable_invoi.Services.Extraction.{replied, Parsed, parsed, Runtime}
use ai_account_payable_invoi.Domain.Extraction.{ExtractedInvoice}
use ai_account_payable_invoi.Services.Validation.{find_duplicate_candidates}
use ai_account_payable_invoi.Services.Validation.Duplicates.{
  IsDuplicate, find_duplicate_candidates_iff,
}
use ai_account_payable_invoi.Domain.State.{validated}
use ai_account_payable_invoi.Services.Ingestion.{World, find_digest, ingest_upload}
use ai_account_payable_invoi.Services.Ingestion.Idempotent.{ingest_upload_again}
use ai_account_payable_invoi.Services.Ingestion.Unique.{
  HasUniqueDigests, ingest_upload-HasUniqueDigests,
}
use ai_account_payable_invoi.Tests.Data.{ascii, with_rows, fresh, runtime, acme_result}

-- A digest that is the bytes themselves.
abbrev digest : Bytes → Text
digest bytes = bytes

abbrev world : World
world = record { invoices = fresh ∷ []; objects = []; extract_tasks = [] }

abbrev rival : Invoice
rival = record fresh { id = 6; content_sha256 = text "1" }

ingest_upload_again_example :
    let (result, after) =
      ingest_upload digest 7 (1 ∷ 2 ∷ []) (text "a.pdf") "application/pdf" (rival ∷ []) world in
    ingest_upload digest 8 (1 ∷ 2 ∷ []) (text "b.pdf") "application/pdf" [] after
    ≡ (record { invoice = result.invoice; created = false }, after)
ingest_upload_again_example =
    ingest_upload_again digest 7 (1 ∷ 2 ∷ []) (text "a.pdf") "application/pdf" (rival ∷ []) world 8
      (text "b.pdf") "application/pdf" []

two_digests : HasUniqueDigests (world.invoices ++ (rival ∷ []))
unfolding find_digest
two_digests = (refl, (refl, tt))

ingest_upload-HasUniqueDigests_example :
    HasUniqueDigests
      (ingest_upload digest 7
        (1 ∷ 2 ∷ [])
        (text "a.pdf")
        "application/pdf"
        (rival ∷ [])
        world).1.invoices
ingest_upload-HasUniqueDigests_example =
    ingest_upload-HasUniqueDigests digest 7 (1 ∷ 2 ∷ []) (text "a.pdf") "application/pdf"
      (rival ∷ []) world two_digests

abbrev one_byte : Bytes
one_byte = 1 ∷ []

abbrev no_cents : Decimal → Text
no_cents d = []

abbrev day_text : ℕ → Text
day_text n = n ∷ []

-- A fixture that the model answers with the invoice of its `.expected.json`.
abbrev fixture : Fixture
fixture = record {
  pdf = 1 ∷ [];
  expected = some (text "e");
  answers = λ n prompt. replied (record { content = text "x"; model = text "m" });
}

abbrev with_key : Runtime Text
with_key = record runtime {
  settings = record default_settings { openrouter_api_key = some (text "k") };
}

extract_example :
    extract_text ascii with_key.pdf_pages (1 ∷ []) "application/pdf"
    ≡ ok (record { content = text "Invoice"; page_count = 1; method = pdfplumber })
unfolding extract_text strip
extract_example = refl

blank_example :
    is_blank ascii (record { content = text "Invoice"; page_count = 1; method = pdfplumber })
    ≡ false
unfolding is_blank strip
blank_example = refl

abbrev expect : Text → Parsed ExtractedInvoice
expect t = parsed acme_result.invoice

fixture-IsAnswered : IsAnswered with_key no_cents day_text expect fixture
fixture-IsAnswered = record {
  truth = text "e";
  has_truth = refl;
  document = record { content = text "Invoice"; page_count = 1; method = pdfplumber };
  is_read = extract_example;
  has_text = blank_example;
  response = record { content = text "x"; model = text "m" };
  is_answer = refl;
  result = acme_result;
  is_parsed = record { json = text "x"; is_json = refl; fits_schema = refl };
  is_truth = refl;
}

run-IsFaithfulRun_example :
    IsFaithfulRun with_key no_cents day_text expect
      (fixture ∷ fixture ∷ [])
      (run with_key no_cents day_text expect (fixture ∷ fixture ∷ []))
run-IsFaithfulRun_example =
    run-IsFaithfulRun with_key no_cents day_text expect fixture (fixture ∷ []) refl
      (fixture-IsAnswered, (fixture-IsAnswered, tt))

find_duplicate_candidates_iff_example :
    (find_duplicate_candidates ascii
        (with_rows validated ∷ fresh ∷ [])
        (record fresh { id = 9 })
        1
        (text " inv-1")
      ≡ [])
    ↔ All
        (λ o. ¬ (IsDuplicate ascii (record fresh { id = 9 }) 1 (text " inv-1") o))
        (with_rows validated ∷ fresh ∷ [])
find_duplicate_candidates_iff_example =
    find_duplicate_candidates_iff ascii (record fresh { id = 9 }) 1 (text " inv-1")
      (with_rows validated ∷ fresh ∷ [])
