-- ===== src/Config.antt =====
-- The settings that the modelled code reads, src/invoice_ops/config.py.
use Prim.Native.String.{String}
use ai_account_payable_invoi.Prelude.{ℕ, Bool, true, ◌*◌, Option, none, List, [], ◌∷◌}
use ai_account_payable_invoi.Prelude.Int
use ai_account_payable_invoi.Text.{Text, text}
use ai_account_payable_invoi.Float.{Float, finite}

pub record Settings : Type 0 where
  pub celery_task_always_eager : Bool
  pub storage_backend : String
  pub s3_bucket : Text
  pub max_upload_bytes : ℕ
  pub allowed_upload_content_types : List String
  pub openrouter_api_key : Option Text
  pub openrouter_base_url : Text
  pub llm_model : Text
  pub llm_temperature : Float
  pub llm_max_retries : ℕ
  pub export_signing_secret : Text

-- The values without an environment.
abbrev pub default_settings : Settings
default_settings = record {
  celery_task_always_eager = true;
  storage_backend = "local";
  s3_bucket = text "invoice-ops";
  max_upload_bytes = 25 * 1024 * 1024;
  allowed_upload_content_types = "application/pdf" ∷ "image/png" ∷ "image/jpeg" ∷ "image/tiff" ∷ [];
  openrouter_api_key = none;
  openrouter_base_url = text "https://openrouter.ai/api/v1";
  llm_model = text "openai/gpt-4o-mini";
  llm_temperature = finite (Int.pos 0);
  llm_max_retries = 1;
  export_signing_secret = text "dev-insecure-signing-secret-change-me";
}
