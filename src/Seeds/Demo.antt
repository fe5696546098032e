-- ===== src/Seeds/Demo.antt =====
-- A second run of scripts/seed_demo.py.
use mathlib.Core.Path.{subst}
use ai_account_payable_invoi.Prelude.{
  ◌≡◌, ◌⊎◌, refl, ap, ◌∙◌, ℕ, Bool-cases, true, Option, none, some, List, [], ◌∷◌, ◌++◌, contains,
  contains-append_left, contains-append_right, list_eq, nat_eq, inl, inr, map,
}
use ai_account_payable_invoi.Text.{Text}
use ai_account_payable_invoi.Models.{Vendor, PurchaseOrder, Tables}
use ai_account_payable_invoi.Services.Outcome.{ok, raised, Error, >>=-eq-ok, Result-cases}
use ai_account_payable_invoi.Workers.{session_scope}
use ai_account_payable_invoi.Seeds.{
  tax_ids, with_tax_id, acme_tax_id, northwind_tax_id, acme_supplies, demo_order, northwind,
  add_vendor, add_order, po_number_of, seed_acme, seed_northwind, seed_demo, run_seed_demo,
}

abbrev Knows : Text → Tables → Type 0
Knows t tables = contains (tax_ids tables.vendors) t ≡ true

tax_ids-append : (vs ws : List Vendor) → tax_ids (vs ++ ws) ≡ tax_ids vs ++ tax_ids ws
unfolding tax_ids
tax_ids-append [] ws = refl
tax_ids-append (v ∷ vs) ws =
    ap (with_tax_id v.tax_id) (tax_ids-append vs ws) ∙ with_tax_id-append v.tax_id
  where
    with_tax_id-append :
        (o : Option Text)
        → with_tax_id o (tax_ids vs ++ tax_ids ws) ≡ with_tax_id o (tax_ids vs) ++ tax_ids ws
    with_tax_id-append none = refl
    with_tax_id-append (some t) = refl

module _ (t : Text) (v : Vendor) (tables : Tables) where
  add_vendor-Knows_old : Knows t tables → Knows t (add_vendor v tables)
  add_vendor-Knows_old h =
      rw (tax_ids-append tables.vendors (v ∷ []))
        (contains-append_left (tax_ids tables.vendors) (tax_ids (v ∷ [])) t h)

  add_vendor-Knows_new : contains (tax_ids (v ∷ [])) t ≡ true → Knows t (add_vendor v tables)
  add_vendor-Knows_new h =
      rw (tax_ids-append tables.vendors (v ∷ []))
        (contains-append_right (tax_ids tables.vendors) (tax_ids (v ∷ [])) t h)

acme_is_known : (id : ℕ) → contains (tax_ids (acme_supplies id ∷ [])) acme_tax_id ≡ true
unfolding tax_ids
acme_is_known id = refl

northwind_is_known : (id : ℕ) → contains (tax_ids (northwind id ∷ [])) northwind_tax_id ≡ true
unfolding tax_ids
northwind_is_known id = refl

add_order-vendors :
    (o : PurchaseOrder) (tables after : Tables)
    → add_order o tables ≡ ok after
    → tables.vendors ≡ after.vendors
add_order-vendors o tables after h =
    elim (Bool-cases (contains (map po_number_of tables.purchase_orders) o.po_number)) [
      | inl y ↦ cc (rw y at h)
      | inr n ↦ let q = rw n at h in cc
    ]

seed_acme-Knows :
    (id order : ℕ) (tables after : Tables)
    → seed_acme (tax_ids tables.vendors) id order tables ≡ ok after
    → Knows acme_tax_id after
unfolding seed_acme
seed_acme-Knows id order tables after h =
    elim (Bool-cases (contains (tax_ids tables.vendors) acme_tax_id)) [
      | inl y ↦ let q : tables ≡ after = cc (rw y at h) in rw q at y
      | inr n ↦
          let q =
            add_order-vendors (demo_order order id) (add_vendor (acme_supplies id) tables) after
              (rw n at h) in
          rw (← q) (add_vendor-Knows_new acme_tax_id (acme_supplies id) tables (acme_is_known id))
    ]

seed_northwind-Knows :
    (known : List Text) (id : ℕ) (tables : Tables)
    → (contains known northwind_tax_id ≡ true → Knows northwind_tax_id tables)
    → Knows northwind_tax_id (seed_northwind known id tables)
unfolding seed_northwind
seed_northwind-Knows known id tables h = elim (Bool-cases (contains known northwind_tax_id)) [
  | inl y ↦ rw y (h y)
  | inr n ↦
      rw n (add_vendor-Knows_new northwind_tax_id (northwind id) tables (northwind_is_known id))
]

module _ (t : Text) where
  seed_acme-keeps :
      (id order : ℕ) (tables after : Tables)
      → seed_acme (tax_ids tables.vendors) id order tables ≡ ok after
      → Knows t tables
      → Knows t after
  unfolding seed_acme
  seed_acme-keeps id order tables after h k =
      elim (Bool-cases (contains (tax_ids tables.vendors) acme_tax_id)) [
        | inl y ↦ let q : tables ≡ after = cc (rw y at h) in rw q at k
        | inr n ↦
            let q =
              add_order-vendors (demo_order order id) (add_vendor (acme_supplies id) tables) after
                (rw n at h) in
            rw (← q) (add_vendor-Knows_old t (acme_supplies id) tables k)
      ]

  seed_northwind-keeps :
      (known : List Text) (id : ℕ) (tables : Tables)
      → Knows t tables
      → Knows t (seed_northwind known id tables)
  unfolding seed_northwind
  seed_northwind-keeps known id tables k = elim (Bool-cases (contains known northwind_tax_id)) [
    | inl y ↦ rw y k
    | inr n ↦ rw n (add_vendor-Knows_old t (northwind id) tables k)
  ]

seed_demo-Knows :
    (acme order other : ℕ) (tables after : Tables) (done : Unit {0})
    → seed_demo acme order other tables ≡ ok (done, after)
    → Knows acme_tax_id after × Knows northwind_tax_id after
unfolding seed_demo
seed_demo-Knows acme order other tables after done h =
    let known = tax_ids tables.vendors in
    let (seeded, q, e) = >>=-eq-ok (seed_acme known acme order tables) _ h in
    let same : seed_northwind known other seeded ≡ after = cc in
    subst (λ (x : Tables). Knows acme_tax_id x × Knows northwind_tax_id x) same
      (
        seed_northwind-keeps acme_tax_id known other seeded
            (seed_acme-Knows acme order tables seeded q),
        seed_northwind-Knows known other seeded
            (seed_acme-keeps northwind_tax_id acme order tables seeded q),
      )

seed_demo-known :
    (acme order other : ℕ) (tables : Tables)
    → Knows acme_tax_id tables
    → Knows northwind_tax_id tables
    → seed_demo acme order other tables ≡ ok (tt, tables)
unfolding seed_demo seed_acme seed_northwind
seed_demo-known acme order other tables a n = rw (seed_acme, seed_northwind, a, n) refl

-- A run either raised and changed nothing, or it returned, and a further run, whatever its fresh
-- ids, returns and changes nothing.
pub run_seed_demo-again :
    (acme order other acme' order' other' : ℕ) (tables : Tables)
    → let (outcome, after) = run_seed_demo acme order other tables in
      ((why : Error) × (outcome ≡ raised why) × (after ≡ tables))
      ⊎ ((outcome ≡ ok tt) × (run_seed_demo acme' order' other' after ≡ (ok tt, after)))
unfolding run_seed_demo session_scope
run_seed_demo-again acme order other acme' order' other' tables =
    elim (Result-cases (seed_demo acme order other tables)) [
      | inl (why, q) ↦ rw (session_scope, q) (inl (why, refl, refl))
      | inr ((done, after), q) ↦
          let (a, n) = seed_demo-Knows acme order other tables after done q in
          let again = seed_demo-known acme' order' other' after a n in
          rw (session_scope, q, again) (inr (refl, refl))
    ]
