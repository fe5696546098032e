-- ===== src/Domain.antt =====
-- The pure core of the service, src/invoice_ops/domain: no input or output.
pub mod State
pub mod Extraction
pub mod RuleResults
pub mod Validation
pub mod Matching
pub mod Approval
pub mod Export
