-- ===== src/Services/Ingestion.antt =====
-- An upload becomes an invoice, src/invoice_ops/services/ingestion.py. SHA-256 is a parameter, and so
-- is the id of the new row.
pub mod Idempotent
pub mod Unique
use Prim.Native.String.{String}
use ai_account_payable_invoi.Prelude.{
  take, ℕ, Bool, true, false, Option, none, some, List, [], ◌∷◌, ◌++◌, length, contains, ltb, ◌==◌,
  ◌||◌, string_eq, list_eq, nat_eq, if◌then◌else◌,
}
use ai_account_payable_invoi.Text.{Text, text, is_empty}
use ai_account_payable_invoi.Config.{Settings}
use ai_account_payable_invoi.Domain.State.{received}
use ai_account_payable_invoi.Domain.Export.{Bytes}
use ai_account_payable_invoi.Models.{Invoice, upload}
use ai_account_payable_invoi.Services.Session.{Objects, put_object}

-- `UploadRejected`, with its status code.
pub data Guard : Type 0 where
  accepted_upload : Guard
  upload_rejected : ℕ → Guard

unfoldable pub validate_upload : Bytes → String → Settings → Guard
validate_upload bytes content_type settings =
    if contains settings.allowed_upload_content_types content_type
    then if is_empty bytes
      then upload_rejected 400
      else if ltb settings.max_upload_bytes (length bytes)
      then upload_rejected 413
      else accepted_upload
    else upload_rejected 415

-- `filename.replace("\\", "/").rsplit("/", 1)[-1]`: what follows the last separator.
unfoldable pub after_slash : Text → Text → Text
after_slash found [] = found
after_slash found (c ∷ t) = after_slash (if c == 0x5c || c == 0x2f then [] else found ++ (c ∷ [])) t

abbrev or_default : Text → Text
or_default [] = text "upload.bin"
or_default (c ∷ t) = c ∷ t

-- `_storage_key`
unfoldable pub raw_key : Text → Text → Text
unfolding after_slash
raw_key digest filename =
    text "raw/"
    ++ (take 2 digest
        ++ (text "/" ++ (digest ++ (text "/" ++ or_default (after_slash [] filename)))))

-- The first row with that digest.
unfoldable pub find_digest : Text → List Invoice → Option Invoice
find_digest digest [] = none
find_digest digest (x ∷ xs) = if x.content_sha256 == digest then some x else find_digest digest xs

-- What is committed: the rows, the objects, and the extraction tasks that were sent.
pub record World : Type 0 where
  pub invoices : List Invoice
  pub objects : Objects
  pub extract_tasks : List ℕ

pub record IngestResult : Type 0 where
  pub invoice : Invoice
  pub created : Bool

module _ (sha256 : Bytes → Text) where
  unfoldable pub new_invoice : ℕ → Bytes → Text → String → Invoice
  unfolding raw_key
  new_invoice id bytes filename content_type = record {
    id = id;
    status = received;
    source = upload;
    original_filename = filename;
    content_type = content_type;
    size_bytes = length bytes;
    storage_key = raw_key (sha256 bytes) filename;
    content_sha256 = sha256 bytes;
    failure_reason = none;
    extractions = [];
    matches = [];
    validations = [];
    audit_log = [];
    exports = [];
  }

  -- The flush, over the rows that are committed by then: the unique digest decides.
  unfoldable pub insert_or_winner : Invoice → World → IngestResult × World
  insert_or_winner v w = elim (find_digest v.content_sha256 w.invoices) [
    | some winner ↦ (record { invoice = winner; created = false }, w)
    | none ↦ (
      record { invoice = v; created = true },
      record w {
        invoices = w.invoices ++ (v ∷ []);
        extract_tasks = w.extract_tasks ++ (v.id ∷ []);
      },
    )
  ]

  -- `rivals` are rows that other requests commit between the first look and the flush.
  unfoldable pub ingest_upload :
      ℕ → Bytes → Text → String → List Invoice → World → IngestResult × World
  unfolding insert_or_winner new_invoice
  ingest_upload id bytes filename content_type rivals w =
      elim (find_digest (sha256 bytes) w.invoices) [
        | some existing ↦ (record { invoice = existing; created = false }, w)
        | none ↦
            let v = new_invoice id bytes filename content_type in
            insert_or_winner v (record w {
              invoices = w.invoices ++ rivals;
              objects = put_object v.storage_key bytes w.objects;
            })
      ]
