-- ===== src/Services/Ingestion/Idempotent.antt =====
-- The same bytes give the same invoice.
use Prim.Native.String.{String}
use ai_account_payable_invoi.Prelude.{
  ℕ, ◌≡◌, refl, ◌∙◌, inl, inr, false, Bool-cases, none, some, Option-cases, List, [], ◌∷◌, ◌++◌,
  list_eq, nat_eq, list_beq_iff, ◌==◌,
}
use ai_account_payable_invoi.Text.{Text}
use ai_account_payable_invoi.Domain.Export.{Bytes}
use ai_account_payable_invoi.Models.{Invoice}
use ai_account_payable_invoi.Services.Ingestion.{
  World, find_digest, insert_or_winner, ingest_upload,
}

find_digest-append :
    (digest : Text) (xs ys : List Invoice)
    → find_digest digest xs ≡ none
    → find_digest digest (xs ++ ys) ≡ find_digest digest ys
unfolding find_digest
find_digest-append digest [] ys h = refl
find_digest-append digest (x ∷ xs) ys h = elim (Bool-cases (x.content_sha256 == digest)) [
  | inl y ↦ cc (rw y at h)
  | inr n ↦ rw n (find_digest-append digest xs ys (rw n at h))
]

find_digest_alone : (v : Invoice) → find_digest v.content_sha256 (v ∷ []) ≡ some v
unfolding find_digest
find_digest_alone v = rw ((list_beq_iff v.content_sha256 v.content_sha256).1 refl) refl

module _ (sha256 : Bytes → Text) where
  insert_or_winner-find_digest :
      (v : Invoice) (w : World)
      → let (result, after) = insert_or_winner sha256 v w in
        find_digest v.content_sha256 after.invoices ≡ some result.invoice
  unfolding insert_or_winner
  insert_or_winner-find_digest v w = elim (Option-cases (find_digest v.content_sha256 w.invoices)) [
    | inr (winner, q) ↦ rw (insert_or_winner, q) q
    | inl q ↦
        rw (insert_or_winner, q)
          (find_digest-append v.content_sha256 w.invoices (v ∷ []) q ∙ find_digest_alone v)
  ]

  -- After an upload, the first row with the digest of its bytes is the invoice that it returned.
  pub ingest_upload-find_digest :
      (id : ℕ) (bytes : Bytes) (filename : Text) (content_type : String) (rivals : List Invoice)
      (w : World)
      → let (result, after) = ingest_upload sha256 id bytes filename content_type rivals w in
        find_digest (sha256 bytes) after.invoices ≡ some result.invoice
  unfolding ingest_upload
  ingest_upload-find_digest id bytes filename content_type rivals w =
      elim (Option-cases (find_digest (sha256 bytes) w.invoices)) [
        | inr (existing, q) ↦ rw (ingest_upload, q) q
        | inl q ↦ rw (ingest_upload, q) (insert_or_winner-find_digest _ _)
      ]

  -- The same bytes uploaded again, under any name and type and whatever rivals there are, give
  -- the invoice of the first upload, as not created, and change nothing.
  pub ingest_upload_again :
      (id : ℕ) (bytes : Bytes) (filename : Text) (content_type : String) (rivals : List Invoice)
      (w : World)
      → (id' : ℕ) (filename' : Text) (content_type' : String) (rivals' : List Invoice)
      → let (result, after) = ingest_upload sha256 id bytes filename content_type rivals w in
        ingest_upload sha256 id' bytes filename' content_type' rivals' after
        ≡ (record { invoice = result.invoice; created = false }, after)
  unfolding ingest_upload
  ingest_upload_again id bytes filename content_type rivals w id' filename' content_type' rivals' =
      found_again _ _ (ingest_upload-find_digest id bytes filename content_type rivals w)
    where
      found_again :
          (v : Invoice) (after : World)
          → find_digest (sha256 bytes) after.invoices ≡ some v
          → ingest_upload sha256 id' bytes filename' content_type' rivals' after
            ≡ (record { invoice = v; created = false }, after)
      found_again v after q = rw (ingest_upload, q) refl
