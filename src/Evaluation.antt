-- ===== src/Evaluation.antt =====
-- Scores of an extraction against the truth, src/invoice_ops/evaluation, and of the decisions after it,
-- evals/discrepancy_eval.py and evals/run.py of the repository.
pub mod Ratio
pub mod Scoring
pub mod Discrepancy
pub mod Run
