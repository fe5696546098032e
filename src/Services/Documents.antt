-- ===== src/Services/Documents.antt =====
-- Plain text of a stored document, src/invoice_ops/services/documents.py. The PDF reader gives the
-- text of each page, `none` for a page without text, or fails.
use Prim.Native.String.{String}
use text.Mathlib.Text.{starts_with}
use ai_account_payable_invoi.Prelude.{
  ℕ, Bool, Option, none, some, List, [], ◌∷◌, ◌++◌, map, length, ◌==◌, string_eq, if◌then◌else◌,
}
use ai_account_payable_invoi.Text.{Text, Unicode, strip, is_empty}
use ai_account_payable_invoi.Domain.Export.{Bytes}
use ai_account_payable_invoi.Models.{TextMethod, pdfplumber, ocr}
use ai_account_payable_invoi.Services.Outcome.{
  Result, ok, raised, or_raise, ◌>>=◌, unsupported_content_type, unreadable_document,
}

pub record DocumentText : Type 0 where
  pub content : Text
  pub page_count : ℕ
  pub method : TextMethod

-- `"\n\n".join(pages)`
abbrev join_pages : List Text → Text
join_pages [] = []
join_pages (p ∷ []) = p
join_pages (p ∷ q ∷ ps) = p ++ (0x0a ∷ 0x0a ∷ join_pages (q ∷ ps))

-- `page.extract_text() or ""`
abbrev page_text : Option Text → Text
page_text none = []
page_text (some t) = t

-- `DocumentText.is_empty`
unfoldable pub is_blank : Unicode → DocumentText → Bool
is_blank u d = is_empty (strip u d.content)

module _ (u : Unicode) (pdf_pages : Bytes → Option (List (Option Text))) where
  pdf_text : Bytes → Result DocumentText
  pdf_text bytes = do
    pages ← or_raise (pdf_pages bytes) unreadable_document
    ok (record {
      content = strip u (join_pages (map page_text pages));
      page_count = length pages;
      method = pdfplumber;
    })

  unfoldable pub extract_text : Bytes → String → Result DocumentText
  unfolding pdf_text
  extract_text bytes content_type =
      if content_type == "application/pdf"
      then pdf_text bytes
      else if starts_with content_type "image/"
      then ok (record { content = []; page_count = 1; method = ocr })
      else raised unsupported_content_type
