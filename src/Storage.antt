-- ===== src/Storage.antt =====
-- Where documents and artifacts are kept, src/invoice_ops/storage.py: one interface over a directory
-- or over an S3 bucket. The file system and the S3 client are parameters, with a type for what they
-- hold.
pub mod RoundTrip
use Prim.Native.String.{String}
use ai_account_payable_invoi.Prelude.{
  ℕ, Bool, List, contains, ◌==◌, string_eq, list_eq, nat_eq, if◌then◌else◌,
}
use ai_account_payable_invoi.Text.{Text}
use ai_account_payable_invoi.Config.{Settings}
use ai_account_payable_invoi.Domain.Export.{Bytes}

-- `key escapes storage root`, or what the backend raises.
pub data Fault : Type 0 where
  escapes_root : Text → Fault
  backend : Text → Fault

pub data Attempt {ℓ} (A : Type ℓ) : Type ℓ where
  fault : Fault → Attempt A
  done : A → Attempt A

abbrev pub ◌>>=◌ {ℓ κ} : {A : Type ℓ} {B : Type κ} → Attempt A → (A → Attempt B) → Attempt B
fault why >>= next = fault why
done value >>= next = next value

infixl 5 ◌>>=◌
pub record Storage (W : Type 0) : Type 0 where
  pub ensure_ready : W → Attempt W
  pub put_object : Text → Bytes → String → W → Attempt W
  pub get_object : Text → W → Attempt Bytes
  pub presigned_url : Text → ℕ → W → Attempt Text

-- `resolve root key` is `(root / key).resolve()`; `mkdir` makes the parents and accepts what exists.
pub record FileSystem (W P : Type 0) : Type 0 where
  pub resolve : P → Text → W → P
  pub is_relative_to : P → P → Bool
  pub parent : P → P
  pub mkdir : P → W → Attempt W
  pub write_bytes : P → Bytes → W → Attempt W
  pub read_bytes : P → W → Attempt Bytes
  pub as_uri : P → Text

module _ {W P : Type 0} (fs : FileSystem W P) (root : P) where
  -- `_path`
  unfoldable pub path : Text → W → Attempt P
  path key w =
      let candidate = fs.resolve root key w in
      if fs.is_relative_to candidate root then done candidate else fault (escapes_root key)

  unfoldable pub local_put : Text → Bytes → String → W → Attempt W
  unfolding path
  local_put key bytes content_type w = do
    target ← path key w
    w' ← fs.mkdir (fs.parent target) w
    fs.write_bytes target bytes w'

  unfoldable pub local_get : Text → W → Attempt Bytes
  unfolding path
  local_get key w = do target ← path key w; fs.read_bytes target w

  unfoldable pub local_url : Text → ℕ → W → Attempt Text
  unfolding path
  local_url key expires_in w = do target ← path key w; done (fs.as_uri target)

  -- `LocalStorage`
  abbrev pub local_storage : Storage W
  local_storage = record {
    ensure_ready = fs.mkdir root;
    put_object = local_put;
    get_object = local_get;
    presigned_url = local_url;
  }

pub record S3Client (W : Type 0) : Type 0 where
  pub list_buckets : W → Attempt (List Text)
  pub create_bucket : Text → W → Attempt W
  pub put_object : Text → Text → Bytes → String → W → Attempt W
  pub get_object : Text → Text → W → Attempt Bytes
  pub generate_presigned_url : Text → Text → ℕ → W → Attempt Text

module _ {W : Type 0} (client : S3Client W) (bucket : Text) where
  unfoldable pub ensure_bucket : W → Attempt W
  ensure_bucket w = do
    existing ← client.list_buckets w
    if contains existing bucket then done w else client.create_bucket bucket w

  -- `S3Storage`
  abbrev pub s3_storage : Storage W
  s3_storage = record {
    ensure_ready = ensure_bucket;
    put_object = client.put_object bucket;
    get_object = client.get_object bucket;
    presigned_url = client.generate_presigned_url bucket;
  }

-- `root` is the resolved `storage_local_dir`.
unfoldable pub get_storage : {W P : Type 0} → Settings → FileSystem W P → P → S3Client W → Storage W
get_storage settings fs root client =
    if settings.storage_backend == "s3"
    then s3_storage client settings.s3_bucket
    else local_storage fs root
