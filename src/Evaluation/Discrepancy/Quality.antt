-- ===== src/Evaluation/Discrepancy/Quality.antt =====
-- What the three rates of evals/discrepancy_eval.py say of its counts.
use native.Mathlib.Nat.{mul-pos}
use ai_account_payable_invoi.Prelude.{
  false, List, ◌∷◌, All, ℕ, zero, suc, ◌≡◌, ◌↔◌, ◌+◌, ◌*◌, ◌<◌, refl, arith, nat_beq, nat_beq_iff,
  Bool-cases, inl, inr,
}
use ai_account_payable_invoi.Evaluation.Ratio.{Ratio, IsSame, ratio_or, whole, plus, times, over}
use ai_account_payable_invoi.Evaluation.Discrepancy.Flagged.{is_missed, exit_code_fn, exit_code_iff}
use ai_account_payable_invoi.Evaluation.Discrepancy.{
  Tally, Scenario, tally, exit_code, precision, recall, f1, f1_of,
}

ratio_or-positive : (n a b : ℕ) → 0 < b → ratio_or n a b ≡ (record { num = a; den = b })
ratio_or-positive n a zero h = absurd (omega (arith, h))
ratio_or-positive n a (suc b) h = ground arith

f1_of-positive :
    (p r : Ratio) → 0 < (plus p r).num → f1_of p r ≡ over (times (times (whole 2) p) r) (plus p r)
f1_of-positive p r h = elim (Bool-cases (nat_beq (plus p r).num 0)) [
  | inl y ↦
      let none_there = (nat_beq_iff (plus p r).num 0).0 y in absurd (omega (arith, h, none_there))
  | inr n ↦ rw n refl
]

f1_of-none : (p r : Ratio) → (plus p r).num ≡ 0 → f1_of p r ≡ whole 0
f1_of-none p r h = rw h refl

-- The two fractions, where something was flagged rightly.
flagged :
    (n b d : ℕ)
    → 0 < n
    → 0 < b
    → 0 < d
    → let p : Ratio = record { num = n; den = b } in
      let r : Ratio = record { num = n; den = d } in
      IsSame (f1_of p r) (record { num = 2 * n; den = b + d })
flagged n b d h k l =
    let p : Ratio = record { num = n; den = b } in
    let r : Ratio = record { num = n; den = d } in
    let sum : 0 < n * d + n * b = omega (arith, mul-pos h l) in
    rw (f1_of-positive p r sum) (record {
      left = mul-pos {m = 1 * b * d} (omega (arith, mul-pos k l)) sum;
      right = omega (arith, k);
      crossed = omega arith;
    })

f1-cases :
    (tp fp tn fn : ℕ)
    → IsSame
        (f1 (record { tp = tp; fp = fp; tn = tn; fn = fn }))
        (ratio_or 1 (2 * tp) (2 * tp + fp + fn))
unfolding f1 precision recall
f1-cases zero zero tn zero = record {
  left = omega arith;
  right = omega arith;
  crossed = omega arith;
}
f1-cases zero zero tn (suc fn) =
    let n : ℕ = 0 + suc fn in
    rw
      (
        f1,
        precision,
        recall,
        ratio_or-positive 1 0 n (omega arith),
        f1_of-positive (whole 1) (record { num = 0; den = n }) (omega arith),
      )
      (record { left = omega arith; right = omega arith; crossed = omega arith })
f1-cases zero (suc fp) tn zero =
    let n : ℕ = 0 + suc fp in
    let same : n + 0 ≡ n = omega arith in
    rw
      (
        f1,
        precision,
        recall,
        same,
        ratio_or-positive 1 0 n (omega arith),
        f1_of-positive (record { num = 0; den = n }) (whole 1) (omega arith),
      )
      (record { left = omega arith; right = omega arith; crossed = omega arith })
f1-cases zero (suc fp) tn (suc fn) =
    let n : ℕ = 0 + suc fp in
    let m : ℕ = 0 + suc fn in
    rw
      (
        f1,
        precision,
        recall,
        ratio_or-positive 1 0 n (omega arith),
        ratio_or-positive 1 0 m (omega arith),
        ratio_or-positive 1 0 (n + suc fn) (omega arith),
        f1_of-none (record { num = 0; den = n }) (record { num = 0; den = m }) (omega arith),
      )
      (record { left = omega arith; right = omega arith; crossed = omega arith })
f1-cases (suc tp) fp tn fn =
    let n : ℕ = suc tp in
    let all : n + fp + (n + fn) ≡ 2 * n + fp + fn = omega arith in
    rw
      (
        f1,
        precision,
        recall,
        ratio_or-positive 1 n (n + fp) (omega arith),
        ratio_or-positive 1 n (n + fn) (omega arith),
        ratio_or-positive 1 (2 * n) (2 * n + fp + fn) (omega arith),
        ← all,
      )
      (flagged n (n + fp) (n + fn) (omega arith) (omega arith) (omega arith))

recall-whole : (t : Tally) → ((recall t).num ≡ (recall t).den) ↔ (t.fn ≡ 0)
unfolding recall
recall-whole t = elim (Bool-cases (nat_beq (t.tp + t.fn) 0)) [
  | inl y ↦
      let none_there = (nat_beq_iff (t.tp + t.fn) 0).0 y in
      rw (recall, y) (λ _. omega (arith, none_there), λ _. refl)
  | inr n ↦ rw (recall, n) (λ e. omega (arith, e), λ e. omega (arith, e))
]

-- After at least one scenario the exit code is 0 exactly when no discrepancy was missed, and
-- exactly when the recall is 1. The F1 score is of the same value as 2tp / (2tp + fp + fn), or 1
-- where that is 0 / 0.
pub quality_lem :
    (s : Scenario) (ss : List Scenario)
    → let t = tally (s ∷ ss) in
      ((exit_code (s ∷ ss) ≡ 0) ↔ All (λ x. is_missed x ≡ false) (s ∷ ss))
      × ((exit_code (s ∷ ss) ≡ 0) ↔ ((recall t).num ≡ (recall t).den))
      × IsSame (f1 t) (ratio_or 1 (2 * t.tp) (2 * t.tp + t.fp + t.fn))
quality_lem s ss =
    let t = tally (s ∷ ss) in
    let (to, from) = recall-whole t in
    let (missed, all) = exit_code_fn s ss in
    (exit_code_iff s ss, (λ e. from (missed e), λ e. all (to e)), f1-cases t.tp t.fp t.tn t.fn)
