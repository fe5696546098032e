-- ===== src/Migrations/Undo.antt =====
-- Each downgrade undoes its upgrade, migrations/versions of the repository. What Alembic does to a
-- schema is a parameter.
use ai_account_payable_invoi.Prelude.{◌≡◌, refl, ap, ◌∙◌, sym, Option, some, List, [], ◌∷◌, ◌++◌}
use ai_account_payable_invoi.Prelude.Options.{◌>>=◌, >>=-eq-some}
use ai_account_payable_invoi.Migrations.{
  Creation, create_table, create_index, Removal, drop_table, drop_index, Revision, add_invoices,
  add_extractions, add_master_data, add_validations, add_audit_log, add_exports, upgrade, downgrade,
}

-- The removal of what was created.
abbrev pub removal_of : Creation → Removal
removal_of (create_table t) = drop_table t.name
removal_of (create_index i) = drop_index i.name i.table

abbrev removals_of : List Creation → List Removal
removals_of [] = []
removals_of (c ∷ cs) = removals_of cs ++ (removal_of c ∷ [])

downgrade-removals_of : (r : Revision) → downgrade r ≡ removals_of (upgrade r)
unfolding downgrade upgrade
downgrade-removals_of add_invoices = refl
downgrade-removals_of add_extractions = refl
downgrade-removals_of add_master_data = refl
downgrade-removals_of add_validations = refl
downgrade-removals_of add_audit_log = refl
downgrade-removals_of add_exports = refl

-- Steps from the first to the last, each of which may fail.
module _ {ℓ κ} {A : Type ℓ} {S : Type κ} where
  abbrev pub run_steps : (A → S → Option S) → List A → S → Option S
  run_steps step [] s = some s
  run_steps step (x ∷ xs) s = step x s >>= run_steps step xs

  run_steps-append :
      (step : A → S → Option S) (xs ys : List A) (s t : S)
      → run_steps step xs s ≡ some t
      → run_steps step (xs ++ ys) s ≡ run_steps step ys t
  run_steps-append step [] ys s t h = ap (run_steps step ys) (same h)
    where
      same : some s ≡ some t → s ≡ t
      same e = cc
  run_steps-append step (x ∷ xs) ys s t h =
      let (u, q, e) = >>=-eq-some (step x s) (run_steps step xs) h in
      rw q (run_steps-append step xs ys u t e)

-- What the revisions do, given what Alembic does for each of their calls; the downgrades from the
-- last to the first.
abbrev pub upgrades {κ} : {S : Type κ} → (Creation → S → Option S) → List Revision → S → Option S
upgrades create = run_steps (λ r. run_steps create (upgrade r))

abbrev pub downgrades {κ} : {S : Type κ} → (Removal → S → Option S) → List Revision → S → Option S
downgrades remove [] s = some s
downgrades remove (r ∷ rs) s = downgrades remove rs s >>= run_steps remove (downgrade r)

module _ {κ} {S : Type κ} (create : Creation → S → Option S) (remove : Removal → S → Option S)
    (removes : (c : Creation) (s t : S)
      → create c s ≡ some t
      → remove (removal_of c) t ≡ some s) where
  run_steps-removals_of :
      (cs : List Creation) (s t : S)
      → run_steps create cs s ≡ some t
      → run_steps remove (removals_of cs) t ≡ some s
  run_steps-removals_of [] s t h = sym h
  run_steps-removals_of (c ∷ cs) s t h =
      let (u, q, e) = >>=-eq-some (create c s) (run_steps create cs) h in
      let back = run_steps-removals_of cs u t e in
      run_steps-append remove (removals_of cs) (removal_of c ∷ []) t u back
      ∙ rw (removes c s u q) refl

  -- If a removal undoes the creation of what it removes, then the downgrades of any revisions, from
  -- the last to the first, bring back the schema that their upgrades started from.
  pub downgrades-upgrades :
      (rs : List Revision) (s t : S)
      → upgrades create rs s ≡ some t
      → downgrades remove rs t ≡ some s
  downgrades-upgrades [] s t h = sym h
  downgrades-upgrades (r ∷ rs) s t h =
      let (u, q, e) = >>=-eq-some (run_steps create (upgrade r) s) (upgrades create rs) h in
      rw (downgrades-upgrades rs u t e, downgrade-removals_of r)
        (run_steps-removals_of (upgrade r) s u q)
