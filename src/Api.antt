-- ===== src/Api.antt =====
-- The HTTP interface, src/invoice_ops/api. A handler is a function from the request and the system
-- to the response and the system after it; routing, forms and templates are the framework's.
pub mod Bodies
pub mod Invoices
pub mod Decisions
pub mod Views
pub mod ReviewUi
pub mod Counts
pub mod Review
pub mod Uploads
pub mod Health
use ai_account_payable_invoi.Prelude.{ℕ}

-- A response with its status code and body, or an `HTTPException`.
pub data Response {ℓ} (A : Type ℓ) : Type ℓ where
  responds : ℕ → A → Response A
  http_exception : ℕ → Response A
