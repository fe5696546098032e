-- ===== src/Services/Ingestion/Unique.antt =====
-- The unique constraint on the digest, and what the guard lets through.
use Prim.Native.String.{String}
use ai_account_payable_invoi.Prelude.{
  ℕ, ◌≤◌, ◌≡◌, ◌≢◌, ◌↔◌, refl, sym, true, false, Bool-cases, none, Option-cases, List, [], ◌∷◌,
  ◌++◌, inl, inr, contains, length, arith, list_eq, nat_eq, string_eq, list_beq_iff, ◌==◌,
}
use ai_account_payable_invoi.Text.{Text}
use ai_account_payable_invoi.Config.{Settings}
use ai_account_payable_invoi.Domain.Export.{Bytes}
use ai_account_payable_invoi.Models.{Invoice}
use ai_account_payable_invoi.Services.Ingestion.{
  World, find_digest, insert_or_winner, ingest_upload, validate_upload, accepted_upload,
}

-- An upload is accepted exactly when its type is allowed, it is not empty, and it is within the
-- limit.
pub validate_upload_iff :
    (bytes : Bytes) (content_type : String) (settings : Settings)
    → (validate_upload bytes content_type settings ≡ accepted_upload) ↔ (
        (contains settings.allowed_upload_content_types content_type ≡ true)
        × (bytes ≢ [])
        × (length bytes ≤ settings.max_upload_bytes))
unfolding validate_upload
validate_upload_iff [] content_type settings =
    elim (Bool-cases (contains settings.allowed_upload_content_types content_type)) [
      | inl y ↦ rw y (λ e. cc, λ (_, h, _). absurd (h refl))
      | inr n ↦ rw n (λ e. cc, λ (e, _, _). cc)
    ]
validate_upload_iff (b ∷ bytes) content_type settings =
    elim (Bool-cases (contains settings.allowed_upload_content_types content_type)) [
      | inl y ↦
          rw y (λ e. (refl, (λ (q : b ∷ bytes ≡ []). cc), ground arith), λ (_, _, le). ground arith)
      | inr n ↦ rw n (λ e. cc, λ (e, _, _). cc)
    ]

-- No two rows have the same digest.
abbrev pub HasUniqueDigests : List Invoice → Type 0
HasUniqueDigests [] = Unit
HasUniqueDigests (x ∷ xs) = (find_digest x.content_sha256 xs ≡ none) × HasUniqueDigests xs

not_same : (s t : Text) → (s == t) ≡ false → (t == s) ≡ false
not_same s t h = elim (Bool-cases (t == s)) [
  | inl y ↦ cc (h, (list_beq_iff s t).1 (sym ((list_beq_iff t s).0 y)))
  | inr n ↦ n
]

absent_before :
    (digest : Text) (xs ys : List Invoice)
    → find_digest digest (xs ++ ys) ≡ none
    → find_digest digest xs ≡ none
unfolding find_digest
absent_before digest [] ys h = refl
absent_before digest (x ∷ xs) ys h = elim (Bool-cases (x.content_sha256 == digest)) [
  | inl y ↦ cc (rw y at h)
  | inr n ↦ rw n (absent_before digest xs ys (rw n at h))
]

absent_after :
    (digest : Text) (xs : List Invoice) (v : Invoice)
    → find_digest digest xs ≡ none
    → (v.content_sha256 == digest) ≡ false
    → find_digest digest (xs ++ (v ∷ [])) ≡ none
unfolding find_digest
absent_after digest [] v h n = rw n refl
absent_after digest (x ∷ xs) v h n = elim (Bool-cases (x.content_sha256 == digest)) [
  | inl y ↦ cc (rw y at h)
  | inr m ↦ rw m (absent_after digest xs v (rw m at h) n)
]

HasUniqueDigests-prefix : (xs ys : List Invoice) → HasUniqueDigests (xs ++ ys) → HasUniqueDigests xs
HasUniqueDigests-prefix [] ys h = tt
HasUniqueDigests-prefix (x ∷ xs) ys h =
    (absent_before x.content_sha256 xs ys h.0, HasUniqueDigests-prefix xs ys h.1)

HasUniqueDigests-append :
    (xs : List Invoice) (v : Invoice)
    → HasUniqueDigests xs
    → find_digest v.content_sha256 xs ≡ none
    → HasUniqueDigests (xs ++ (v ∷ []))
unfolding find_digest
HasUniqueDigests-append [] v h q = (refl, tt)
HasUniqueDigests-append (x ∷ xs) v h q = elim (Bool-cases (x.content_sha256 == v.content_sha256)) [
  | inl y ↦ cc (rw y at q)
  | inr n ↦ (
    absent_after x.content_sha256 xs v h.0 (not_same x.content_sha256 v.content_sha256 n),
    HasUniqueDigests-append xs v h.1 (rw n at q),
  )
]

module _ (sha256 : Bytes → Text) where
  insert_or_winner-HasUniqueDigests :
      (v : Invoice) (w : World)
      → HasUniqueDigests w.invoices
      → HasUniqueDigests (insert_or_winner sha256 v w).1.invoices
  unfolding insert_or_winner
  insert_or_winner-HasUniqueDigests v w h =
      elim (Option-cases (find_digest v.content_sha256 w.invoices)) [
        | inr (winner, q) ↦ rw (insert_or_winner, q) h
        | inl q ↦ rw (insert_or_winner, q) (HasUniqueDigests-append w.invoices v h q)
      ]

  -- If the rows that are committed by the time of the flush have no digest twice, then neither
  -- have those after the upload.
  pub ingest_upload-HasUniqueDigests :
      (id : ℕ) (bytes : Bytes) (filename : Text) (content_type : String) (rivals : List Invoice)
      (w : World)
      → HasUniqueDigests (w.invoices ++ rivals)
      → HasUniqueDigests (ingest_upload sha256 id bytes filename content_type rivals w).1.invoices
  unfolding ingest_upload
  ingest_upload-HasUniqueDigests id bytes filename content_type rivals w h =
      elim (Option-cases (find_digest (sha256 bytes) w.invoices)) [
        | inr (existing, q) ↦ rw (ingest_upload, q) (HasUniqueDigests-prefix w.invoices rivals h)
        | inl q ↦ rw (ingest_upload, q) (insert_or_winner-HasUniqueDigests _ _ h)
      ]
