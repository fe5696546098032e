-- ===== src/Evaluation/Scoring.antt =====
-- Field scores and their totals, src/invoice_ops/evaluation/scoring.py. The text of an amount that is
-- quantised to cents and the ISO text of a day are parameters.
pub mod Totals
use Prim.Native.String.{String}
use mathlib.Core.List.{flat_map}
use ai_account_payable_invoi.Prelude.{
  ℕ, Bool, true, false, not, Option, none, some, List, [], ◌∷◌, ◌++◌, keep, length, contains, ◌==◌,
  nat_beq, string_eq, list_eq, nat_eq, if◌then◌else◌,
}
use ai_account_payable_invoi.Text.{Text, Unicode, strip, lowercase, split, join_words}
use ai_account_payable_invoi.Decimal.{Decimal}
use ai_account_payable_invoi.Domain.Extraction.{ExtractedInvoice, critical_fields}
use ai_account_payable_invoi.Evaluation.Ratio.{Ratio, ratio_or}

pub data Verdict : Type 0 where
  correct wrong missing spurious absent_ok : Verdict

-- `Any`, for the values that the fields have.
pub data FieldValue : Type 0 where
  a_text : Text → FieldValue
  a_day : ℕ → FieldValue
  an_amount : Decimal → FieldValue
  a_count : ℕ → FieldValue

pub record FieldScore : Type 0 where
  pub field : String
  pub verdict : Verdict
  pub expected : Option FieldValue
  pub actual : Option FieldValue

-- The last tests of `_verdict`, on the normal forms.
unfoldable pub verdict_of : Option Text → Option Text → Verdict
verdict_of none none = absent_ok
verdict_of (some e) none = missing
verdict_of none (some a) = spurious
verdict_of (some e) (some a) = if e == a then correct else wrong

abbrev value_of {ℓ} : {A : Type ℓ} → (A → FieldValue) → Option A → Option FieldValue
value_of f none = none
value_of f (some a) = some (f a)

abbrev normal_of {ℓ} : {A : Type ℓ} → (A → Text) → Option A → Option Text
normal_of f none = none
normal_of f (some a) = some (f a)

module _ (u : Unicode) (cents_text : Decimal → Text) (iso_text : ℕ → Text) where
  -- `_norm_text`, `_norm_money` and `_norm_date`
  unfoldable pub norm_text : Option Text → Option Text
  norm_text = normal_of (λ t. join_words (split u (lowercase u (strip u t))))

  unfoldable pub norm_money : Option Decimal → Option Text
  norm_money = normal_of cents_text

  unfoldable pub norm_date : Option ℕ → Option Text
  norm_date = normal_of iso_text

  abbrev text_score : String → Option Text → Option Text → FieldScore
  text_score name e a = record {
    field = name;
    verdict = verdict_of (norm_text e) (norm_text a);
    expected = value_of a_text e;
    actual = value_of a_text a;
  }

  abbrev day_score : String → Option ℕ → Option ℕ → FieldScore
  day_score name e a = record {
    field = name;
    verdict = verdict_of (norm_date e) (norm_date a);
    expected = value_of a_day e;
    actual = value_of a_day a;
  }

  abbrev money_score : String → Option Decimal → Option Decimal → FieldScore
  money_score name e a = record {
    field = name;
    verdict = verdict_of (norm_money e) (norm_money a);
    expected = value_of an_amount e;
    actual = value_of an_amount a;
  }

  abbrev count_score : ℕ → ℕ → FieldScore
  count_score e a = record {
    field = "line_items_count";
    verdict = if nat_beq e a then correct else wrong;
    expected = some (a_count e);
    actual = some (a_count a);
  }

  unfoldable pub score_invoice : ExtractedInvoice → ExtractedInvoice → List FieldScore
  score_invoice e a =
      text_score "supplier_name" e.supplier_name a.supplier_name
      ∷ text_score "supplier_tax_id" e.supplier_tax_id a.supplier_tax_id
      ∷ text_score "invoice_number" e.invoice_number a.invoice_number
      ∷ day_score "invoice_date" e.invoice_date a.invoice_date
      ∷ text_score "currency" e.currency a.currency
      ∷ text_score "purchase_order_number" e.purchase_order_number a.purchase_order_number
      ∷ money_score "subtotal" e.subtotal a.subtotal
      ∷ money_score "tax_amount" e.tax_amount a.tax_amount
      ∷ money_score "total" e.total a.total
      ∷ count_score (length e.line_items) (length a.line_items)
      ∷ []

pub record Aggregate : Type 0 where
  pub graded : ℕ
  pub n_correct : ℕ
  pub n_wrong : ℕ
  pub n_missing : ℕ
  pub n_spurious : ℕ
  pub n_absent_ok : ℕ
  pub critical_graded : ℕ
  pub critical_correct : ℕ

abbrev pub is_verdict : Verdict → Verdict → Bool
is_verdict correct correct = true
is_verdict wrong wrong = true
is_verdict missing missing = true
is_verdict spurious spurious = true
is_verdict absent_ok absent_ok = true
is_verdict _ _ = false

-- `n(verdict, pool)`
unfoldable pub count : Verdict → List FieldScore → ℕ
count v pool = length (keep (λ s. is_verdict v (FieldScore.verdict s)) pool)

abbrev pub graded_pool : List FieldScore → List FieldScore
graded_pool = keep (λ s. not (is_verdict absent_ok (FieldScore.verdict s)))

abbrev pub critical_pool : List FieldScore → List FieldScore
critical_pool = keep (λ s. contains critical_fields (FieldScore.field s))

abbrev pub flatten : List (List FieldScore) → List FieldScore
flatten [] = []
flatten (s ∷ ss) = s ++ flatten ss

unfoldable pub aggregate : List (List FieldScore) → Aggregate
unfolding count
aggregate per_invoice =
    let flat = flatten per_invoice in
    let pool = graded_pool flat in
    let critical = critical_pool pool in
    record {
      graded = length pool;
      n_correct = count correct pool;
      n_wrong = count wrong pool;
      n_missing = count missing pool;
      n_spurious = count spurious pool;
      n_absent_ok = count absent_ok flat;
      critical_graded = length critical;
      critical_correct = count correct critical;
    }

unfoldable pub field_accuracy : Aggregate → Ratio
field_accuracy t = ratio_or 1 t.n_correct t.graded

unfoldable pub critical_accuracy : Aggregate → Ratio
critical_accuracy t = ratio_or 1 t.critical_correct t.critical_graded
