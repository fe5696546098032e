-- ===== src/Evaluation/Scoring/Totals.antt =====
-- How the totals of an evaluation relate.
use ai_account_payable_invoi.Prelude.{
  Bool-cases, inl, inr, ℕ, ◌+◌, ◌≤◌, ◌≡◌, refl, Option, none, some, List, [], ◌∷◌, length, arith,
  nat_beq, nat_beq_iff, if◌then◌else◌, All, All-append, list_eq, nat_eq, list_beq_iff,
}
use ai_account_payable_invoi.Text.{Text, Unicode}
use ai_account_payable_invoi.Decimal.{Decimal}
use ai_account_payable_invoi.Domain.Extraction.{ExtractedInvoice}
use ai_account_payable_invoi.Evaluation.Ratio.{ratio_or}
use ai_account_payable_invoi.Evaluation.Scoring.{
  Verdict, correct, wrong, missing, spurious, absent_ok, FieldScore, verdict_of, score_invoice,
  aggregate, count, graded_pool, critical_pool, flatten,
}

pool_counts :
    (pool : List FieldScore)
    → (length (graded_pool pool)
        ≡ count correct (graded_pool pool)
          + count wrong (graded_pool pool)
          + (count missing (graded_pool pool) + count spurious (graded_pool pool)))
      × (length pool ≡ length (graded_pool pool) + count absent_ok pool)
      × (count correct (critical_pool (graded_pool pool))
          ≤ length (critical_pool (graded_pool pool)))
      × (count correct (critical_pool (graded_pool pool)) ≤ count correct (graded_pool pool))
      × (length (critical_pool (graded_pool pool)) ≤ length (graded_pool pool))
unfolding count
pool_counts [] = ground arith
pool_counts (s ∷ ss) = ground (arith, pool_counts ss)

-- Every score is counted once: the graded ones are the correct, the wrong, the missing and the
-- spurious, and the others are absent on both sides. The critical counts are at most the whole
-- ones, and the correct at most the graded.
pub aggregate_lem :
    (per_invoice : List (List FieldScore))
    → let t = aggregate per_invoice in
      (t.graded ≡ t.n_correct + t.n_wrong + (t.n_missing + t.n_spurious))
      × (length (flatten per_invoice) ≡ t.graded + t.n_absent_ok)
      × (t.critical_correct ≤ t.critical_graded)
      × (t.critical_correct ≤ t.n_correct)
      × (t.critical_graded ≤ t.graded)
unfolding aggregate
aggregate_lem per_invoice = pool_counts (flatten per_invoice)

abbrev pub IsRight : Verdict → Type 0
IsRight correct = Unit
IsRight absent_ok = Unit
IsRight _ = ⊥

verdict_of_same : (o : Option Text) → IsRight (verdict_of o o)
unfolding verdict_of
verdict_of_same none = tt
verdict_of_same (some t) = rw ((list_beq_iff t t).1 refl) tt

pub correct_in_pool :
    (pool : List FieldScore)
    → All (λ s. IsRight (FieldScore.verdict s)) pool
    → count correct (graded_pool pool) ≡ length (graded_pool pool)
unfolding count
correct_in_pool [] h = refl
correct_in_pool (s ∷ ss) h = ground (arith, correct_in_pool ss h.1)

pub correct_in_critical :
    (pool : List FieldScore)
    → All (λ s. IsRight (FieldScore.verdict s)) pool
    → count correct (critical_pool (graded_pool pool)) ≡ length (critical_pool (graded_pool pool))
unfolding count
correct_in_critical [] h = refl
correct_in_critical (s ∷ ss) h = ground (arith, correct_in_critical ss h.1)

-- A quotient of equal counts is 1.
pub ratio_or-one : (n : ℕ) → (ratio_or 1 n n).num ≡ (ratio_or 1 n n).den
ratio_or-one n = elim (Bool-cases (nat_beq n 0)) [ inl y ↦ rw y refl | inr k ↦ rw k refl ]

same_count : (n : ℕ) → IsRight (if nat_beq n n then correct else wrong)
same_count n = rw ((nat_beq_iff n n).1 refl) tt

pub score_invoice-AllRight :
    (u : Unicode) (cents_text : Decimal → Text) (iso_text : ℕ → Text) (e : ExtractedInvoice)
    → All (λ s. IsRight (FieldScore.verdict s)) (score_invoice u cents_text iso_text e e)
unfolding score_invoice
score_invoice-AllRight u cents_text iso_text e =
    let same = verdict_of_same in
    (
      same _,
      (
        same _,
        (same _, (same _, (same _, (same _, (same _, (same _, (same _, (same_count _, tt)))))))),
      ),
    )

-- An extraction that equals the truth is graded correct in every field that it gives.
pub score_invoice_same :
    (u : Unicode) (cents_text : Decimal → Text) (iso_text : ℕ → Text) (e : ExtractedInvoice)
    → let t = aggregate (score_invoice u cents_text iso_text e e ∷ []) in t.n_correct ≡ t.graded
unfolding aggregate
score_invoice_same u cents_text iso_text e =
    correct_in_pool (flatten (score_invoice u cents_text iso_text e e ∷ []))
      (All-append _ _ [] (score_invoice-AllRight u cents_text iso_text e) tt)
