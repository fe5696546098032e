-- ===== src/Workers/Hindered.antt =====
-- What the extraction task does to a received invoice whose extraction raises, `extract_invoice` of
-- src/invoice_ops/workers/tasks.py.
use ai_account_payable_invoi.Models
