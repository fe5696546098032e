-- ===== src/Api/Uploads.antt =====
-- The uploads: the same bytes again are answered with the invoice that is there, as it is by then.
use Prim.Native.String.{String}
use ai_account_payable_invoi.Prelude.{ℕ, ◌≡◌, some, List, [], list_eq, nat_eq}
use ai_account_payable_invoi.Text.{Text}
use ai_account_payable_invoi.Domain.Export.{Bytes}
use ai_account_payable_invoi.Models.{Invoice}
use ai_account_payable_invoi.Services.Ingestion.{find_digest}
use ai_account_payable_invoi.Services.Ingestion.Idempotent.{ingest_upload-find_digest}
use ai_account_payable_invoi.Workers.{System, upload}
use ai_account_payable_invoi.Workers.Sessions.{Session}

-- The digest leads to the invoice of that id.
abbrev Leads : Text → ℕ → List Invoice → Type 0
Leads digest id xs = (w : Invoice) × (find_digest digest xs ≡ some w) × (w.id ≡ id)

module _ (sha256 : Bytes → Text) where
  pub upload-find_digest :
      (id : ℕ) (bytes : Bytes) (filename : Text) (content_type : String) (s : System)
      → let (result, after) = upload sha256 id bytes filename content_type s in
        find_digest (sha256 bytes) after.tables.invoices ≡ some result.invoice
  unfolding upload
  upload-find_digest id bytes filename content_type s =
      ingest_upload-find_digest sha256 id bytes filename content_type [] _
