-- ===== src/Workers/Staged.antt =====
-- What is true of an invoice between two sessions: the rows that its status stands for, the history
-- of the status, and the grounds of an approval.
use mathlib.Core.Path.{subst}
use ai_account_payable_invoi.Prelude.{
  ◌≡◌, refl, sym, ap, ◌∙◌, ◌⊎◌, true, false, none, some, List, [], ◌∷◌, ◌++◌, any, get_last?, ◌==◌,
  arith,
}
use ai_account_payable_invoi.Domain.State.{
  InvoiceStatus, received, extracting, extracted, matching, validating, validated, needs_review,
  auto_approved, approved, rejected, exporting, exported, failed, status_eq,
}
use ai_account_payable_invoi.Models
use ai_account_payable_invoi.Models.{Invoice, InvoiceMatch, AuditLog}
use ai_account_payable_invoi.Services.Lifecycle.History.{HasHistory, Extends, Extends-HasHistory}
use ai_account_payable_invoi.Services.Extraction.{latest_ok, latest_successful_extraction}
use ai_account_payable_invoi.Services.Extraction.Stage.{Succeeds}
use ai_account_payable_invoi.Services.Matching.{extracted_result, latest_match}
use ai_account_payable_invoi.Services.Approval.{latest_validation}
use ai_account_payable_invoi.Services.Approval.Policy.{PolicyHolds}

-- One attempt, which succeeded.
abbrev pub HasExtraction : Invoice → Type 0
HasExtraction v = (x : Models.Extraction) × (v.extractions ≡ x ∷ []) × Succeeds x

-- One row of a kind.
abbrev pub HasOne {ℓ} : {A : Type ℓ} → List A → Type ℓ
HasOne {A = A} rows = (x : A) × (rows ≡ x ∷ [])

-- A person approved it.
abbrev pub WasReviewed : Invoice → Type 0
WasReviewed v = any (λ e. AuditLog.to_status e == approved) v.audit_log ≡ true

abbrev pub HasGrounds : Invoice → Type 0
HasGrounds v = PolicyHolds v ⊎ WasReviewed v

-- Extraction, match and validation, and no export yet.
abbrev pub IsRuled : Invoice → Type 0
IsRuled v = HasExtraction v × HasOne v.matches × HasOne v.validations × (v.exports ≡ [])

-- The rows of an invoice at each status; the statuses within a session have none.
abbrev pub Rows : InvoiceStatus → Invoice → Type 0
Rows received v = (v.extractions ≡ []) × (v.matches ≡ []) × (v.validations ≡ []) × (v.exports ≡ [])
Rows extracted v = HasExtraction v × (v.matches ≡ []) × (v.validations ≡ []) × (v.exports ≡ [])
Rows validating v = HasExtraction v × HasOne v.matches × (v.validations ≡ []) × (v.exports ≡ [])
Rows validated v = IsRuled v
Rows needs_review v = IsRuled v
Rows rejected v = IsRuled v
Rows auto_approved v = IsRuled v × PolicyHolds v
Rows approved v = IsRuled v × WasReviewed v
Rows exported v =
    HasExtraction v × HasOne v.matches × HasOne v.validations × HasOne v.exports × HasGrounds v
Rows failed v =
    ((x : Models.Extraction) × (v.extractions ≡ x ∷ []) × (x.ok ≡ false))
    × (v.matches ≡ [])
    × (v.validations ≡ [])
    × (v.exports ≡ [])
Rows extracting v = ⊥
Rows matching v = ⊥
Rows exporting v = ⊥

pub record IsSound (v : Invoice) : Type 0 where
  pub history : HasHistory v
  pub rows : Rows v.status v

pub IsSound-Rows : {v : Invoice} {s : InvoiceStatus} → IsSound v → v.status ≡ s → Rows s v
IsSound-Rows {v} h e = rw (← e) h.rows

pub sound_at :
    {v w : Invoice} {s : InvoiceStatus}
    → IsSound v
    → Extends v w
    → w.status ≡ s
    → Rows s w
    → IsSound w
sound_at {v} {w} h x e r = record {
  history = Extends-HasHistory x h.history;
  rows = subst (λ t. Rows t w) (sym e) r;
}

-- The stages find what a sound invoice has.
pub found_extraction :
    (v : Invoice) (h : HasExtraction v) → latest_successful_extraction v ≡ some h.0
unfolding latest_successful_extraction latest_ok
found_extraction v (x, only, s) = rw (latest_successful_extraction, only, s.is_ok) refl

pub found_result : (v : Invoice) (h : HasExtraction v) → extracted_result v ≡ some h.2.result
unfolding extracted_result
found_result v h = rw (extracted_result, found_extraction v h) h.2.stored

pub found_validation : (v : Invoice) (h : HasOne v.validations) → latest_validation v ≡ some h.0
unfolding latest_validation
found_validation v (y, only) = ap get_last? only

-- The policy reads only rows that stay.
pub PolicyHolds-keeps :
    {v w : Invoice}
    → w.extractions ≡ v.extractions
    → w.matches ≡ v.matches
    → w.validations ≡ v.validations
    → PolicyHolds v
    → PolicyHolds w
unfolding latest_validation latest_match latest_successful_extraction
PolicyHolds-keeps {v} {w} es ms vs p = record {
  validation = p.validation;
  extraction = p.extraction;
  match = p.match;
  last_validation = ap get_last? vs ∙ p.last_validation;
  last_extraction = ap (latest_ok none) es ∙ p.last_extraction;
  last_match = ap get_last? ms ∙ p.last_match;
  rules_passed = p.rules_passed;
  vendor = p.vendor;
  vendor_known = p.vendor_known;
  by_method = p.by_method;
  order = p.order;
  order_known = p.order_known;
  confident = p.confident;
}

any-append :
    (es fs : List AuditLog)
    → any (λ e. AuditLog.to_status e == approved) es ≡ true
    → any (λ e. AuditLog.to_status e == approved) (es ++ fs) ≡ true
any-append [] fs h = cc
any-append (e ∷ es) fs h = ground (arith, any-append es fs)

pub WasReviewed-keeps : {v w : Invoice} → Extends v w → WasReviewed v → WasReviewed w
WasReviewed-keeps {v} {w} x h = rw x.appended (any-append v.audit_log x.entries h)
