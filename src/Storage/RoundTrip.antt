-- ===== src/Storage/RoundTrip.antt =====
-- What is put under a key is got back from the local storage, and other keys keep what they hold; a
-- put stays inside of the root; a bucket is made once.
use ai_account_payable_invoi.Prelude.{
  ◌≡◌, ◌≢◌, sym, refl, ap, ◌∙◌, inl, inr, true, false, Bool-cases, List, contains, string_eq,
  list_eq, nat_eq, if◌then◌else◌,
}
use mathlib.Core.Path.{subst}
use Prim.Native.String.{String}
use ai_account_payable_invoi.Text.{Text}
use ai_account_payable_invoi.Domain.Export.{Bytes}
use ai_account_payable_invoi.Storage.{
  Fault, escapes_root, Attempt, fault, done, ◌>>=◌, FileSystem, path, local_put, local_get,
  S3Client, ensure_bucket,
}

-- Inversion of a call that returns.
>>=-eq-done {ℓ κ} :
    {A : Type ℓ} {B : Type κ} (call : Attempt A) (next : A → Attempt B) {out : B}
    → (call >>= next) ≡ done out
    → (value : A) × (call ≡ done value) × (next value ≡ done out)
>>=-eq-done (fault why) next h = cc
>>=-eq-done (done value) next h = (value, refl, h)

pub same_done : {W : Type 0} {a b : W} → done a ≡ done b → a ≡ b
same_done h = cc

-- What the file system documents: a file holds what was written last, the others keep what they
-- hold, and neither a new directory nor a new file is a link that a path would resolve through.
pub record IsFileSystem {W P : Type 0} (fs : FileSystem W P) : Type 0 where
  pub read_back :
      (p : P) (bytes : Bytes) (w w' : W)
      → fs.write_bytes p bytes w ≡ done w'
      → fs.read_bytes p w' ≡ done bytes
  pub write_elsewhere :
      (p q : P) (bytes kept : Bytes) (w w' : W)
      → q ≢ p
      → fs.write_bytes p bytes w ≡ done w'
      → fs.read_bytes q w ≡ done kept
      → fs.read_bytes q w' ≡ done kept
  pub mkdir_keeps :
      (p q : P) (kept : Bytes) (w w' : W)
      → fs.mkdir p w ≡ done w'
      → fs.read_bytes q w ≡ done kept
      → fs.read_bytes q w' ≡ done kept
  pub mkdir_resolves :
      (p root : P) (key : Text) (w w' : W)
      → fs.mkdir p w ≡ done w'
      → fs.resolve root key w' ≡ fs.resolve root key w
  pub write_resolves :
      (p root : P) (key : Text) (bytes : Bytes) (w w' : W)
      → fs.write_bytes p bytes w ≡ done w'
      → fs.resolve root key w' ≡ fs.resolve root key w

-- What S3 documents: a bucket that was made is listed.
pub record IsS3 {W : Type 0} (client : S3Client W) : Type 0 where
  pub listed :
      (bucket : Text) (w w' : W)
      → client.create_bucket bucket w ≡ done w'
      → (names : List Text) × (client.list_buckets w' ≡ done names) × (contains names bucket ≡ true)

module _ {W P : Type 0} (fs : FileSystem W P) (root : P) where
  path-same :
      (key : Text) (w w' : W)
      → fs.resolve root key w' ≡ fs.resolve root key w
      → path fs root key w' ≡ path fs root key w
  unfolding path
  path-same key w w' e =
      ap (λ p. if fs.is_relative_to p root then done p else fault (escapes_root key)) e

  path-resolves :
      (key : Text) (w : W) (target : P)
      → path fs root key w ≡ done target
      → target ≡ fs.resolve root key w
  unfolding path
  path-resolves key w target e =
      elim (Bool-cases (fs.is_relative_to (fs.resolve root key w) root)) [
        | inl y ↦ sym (same_done (rw (path, y) at e))
        | inr n ↦ absurd (refused (rw (path, n) at e))
      ]
    where
      refused : {why : Fault} → fault why ≡ done target → ⊥
      refused h = cc

  module _ (is : IsFileSystem fs) (key : Text) (bytes : Bytes) (content_type : String) (w w' : W)
      (put : local_put fs root key bytes content_type w ≡ done w') where
    -- The three steps of a put.
    steps :
        (target : P) × (made : W) × (path fs root key w ≡ done target)
        × (fs.mkdir (fs.parent target) w ≡ done made)
        × (fs.write_bytes target bytes made ≡ done w')
    unfolding local_put
    steps =
        let (target, found, rest) = >>=-eq-done (path fs root key w) _ put in
        let (made, mkdir, written) = >>=-eq-done (fs.mkdir (fs.parent target) w) _ rest in
        (target, made, found, mkdir, written)

    still : (other : Text) → path fs root other w' ≡ path fs root other w
    still other =
        let (target, made, _, mkdir, written) = steps in
        path-same other w w' (
          is.write_resolves target root other bytes made w' written
          ∙ is.mkdir_resolves (fs.parent target) root other w made mkdir)

    -- If the file system behaves as documented, a put that returns is got back under its key, and
    -- another key, which resolves to another path and held something, still holds it.
    pub local_put-get :
        (other : Text) (kept : Bytes)
        → fs.resolve root other w ≢ fs.resolve root key w
        → local_get fs root other w ≡ done kept
        → (local_get fs root key w' ≡ done bytes) × (local_get fs root other w' ≡ done kept)
    unfolding local_get
    local_put-get other kept apart there =
        let (target, made, found, mkdir, written) = steps in
        let (source, found', reads) = >>=-eq-done (path fs root other w) _ there in
        let differs : source ≢ target = λ e.
          apart
            (sym (path-resolves other w source found') ∙ e ∙ path-resolves key w target found) in
        (
          rw (local_get, still key ∙ found) (is.read_back target bytes made w' written),
          rw (local_get, still other ∙ found')
              (is.write_elsewhere target source bytes kept made w' differs written
                (is.mkdir_keeps (fs.parent target) source kept w made mkdir reads)),
        )

    path-confined :
        (target : P) → path fs root key w ≡ done target → fs.is_relative_to target root ≡ true
    unfolding path
    path-confined target e = elim (Bool-cases (fs.is_relative_to (fs.resolve root key w) root)) [
      | inl y ↦ subst (λ p. fs.is_relative_to p root ≡ true) (same_done (rw (path, y) at e)) y
      | inr n ↦ absurd (refused (rw (path, n) at e))
    ]
      where
        refused : {why : Fault} → fault why ≡ done target → ⊥
        refused h = cc

    -- If the file system behaves as documented, a put that returns was of a key that resolves to a
    -- path inside of the root, and a file outside of the root still holds what it held.
    pub local_put_confined :
        (q : P) (kept : Bytes)
        → fs.is_relative_to q root ≡ false
        → fs.read_bytes q w ≡ done kept
        → (fs.is_relative_to (fs.resolve root key w) root ≡ true) × (fs.read_bytes q w' ≡ done kept)
    local_put_confined q kept outside there =
        let (target, made, found, mkdir, written) = steps in
        let inside = path-confined target found in
        let differs : q ≢ target = λ e. let same = ap (λ p. fs.is_relative_to p root) e in cc in
        (
          subst (λ p. fs.is_relative_to p root ≡ true) (path-resolves key w target found) inside,
          is.write_elsewhere target q bytes kept made w' differs written
              (is.mkdir_keeps (fs.parent target) q kept w made mkdir there),
        )

module _ {W : Type 0} (client : S3Client W) (bucket : Text) where
  -- If S3 behaves as documented, making the bucket ready a second time changes nothing.
  pub ensure_bucket_once :
      IsS3 client
      → (w w' : W) → ensure_bucket client bucket w ≡ done w'
      → ensure_bucket client bucket w' ≡ done w'
  unfolding ensure_bucket
  ensure_bucket_once consistent w w' e =
      let (existing, listed, rest) = >>=-eq-done (client.list_buckets w) _ e in
      elim (Bool-cases (contains existing bucket)) [
        | inl y ↦ subst (λ x. ensure_bucket client bucket x ≡ done w') (same_done (rw y at rest)) e
        | inr n ↦
            let (names, listed', there) = consistent.listed bucket w w' (rw n at rest) in
            rw (ensure_bucket, listed', there) refl
      ]
