-- ===== src/Services.antt =====
-- The service layer, src/invoice_ops/services: each stage of the pipeline over one invoice.
pub mod Outcome
pub mod Session
pub mod Lifecycle
pub mod Documents
pub mod Extraction
pub mod Llm
pub mod Matching
pub mod Validation
pub mod Approval
pub mod Export
pub mod Ingestion
pub mod Returns
