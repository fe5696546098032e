-- ===== src/Seeds.antt =====
-- The scripts that seed the database, scripts/seed_demo.py and scripts/seed_eval_vendors.py of the
-- repository. Fresh ids, and what the fixtures hold, are parameters. Of the constraints, the unique
-- order number is checked; the others hold of the rows that are added.
pub mod Demo
pub mod Vendors
use ai_account_payable_invoi.Prelude.{
  ℕ, suc, Bool, true, Option, none, some, List, [], ◌∷◌, ◌++◌, ◌||◌, map, contains, list_eq, nat_eq,
  if◌then◌else◌,
}
use ai_account_payable_invoi.Prelude.Int
use ai_account_payable_invoi.Text.{Text, text, is_falsy, starts_with}
use ai_account_payable_invoi.Decimal.{Decimal}
use ai_account_payable_invoi.Models.{Vendor, PurchaseOrder, PoLine, Tables}
use ai_account_payable_invoi.Services.Outcome.{Result, ok, raised, ◌>>=◌, integrity_error}
use ai_account_payable_invoi.Workers.{session_scope}

-- `{v.tax_id for v in vendors if v.tax_id is not None}`
abbrev with_tax_id : Option Text → List Text → List Text
with_tax_id none ts = ts
with_tax_id (some t) ts = t ∷ ts

unfoldable pub tax_ids : List Vendor → List Text
tax_ids [] = []
tax_ids (v ∷ vs) = with_tax_id v.tax_id (tax_ids vs)

-- `{v.tax_id for v in vendors if v.tax_id}`
abbrev with_truthy_id : Option Text → List Text → List Text
with_truthy_id (some (c ∷ t)) ts = (c ∷ t) ∷ ts
with_truthy_id _ ts = ts

unfoldable pub truthy_tax_ids : List Vendor → List Text
truthy_tax_ids [] = []
truthy_tax_ids (v ∷ vs) = with_truthy_id v.tax_id (truthy_tax_ids vs)

abbrev pub add_vendor : Vendor → Tables → Tables
add_vendor v tables = record tables { vendors = tables.vendors ++ (v ∷ []) }

abbrev po_number_of : PurchaseOrder → Text
po_number_of o = o.po_number

-- The flush of a new order, whose number is unique.
abbrev pub add_order : PurchaseOrder → Tables → Result Tables
add_order o tables =
    if contains (map po_number_of tables.purchase_orders) o.po_number
    then raised integrity_error
    else ok (record tables { purchase_orders = tables.purchase_orders ++ (o ∷ []) })

abbrev amount : ℕ → ℕ → Decimal
amount coefficient scale = record { coefficient = Int.pos coefficient; scale = scale }

abbrev pub acme_tax_id : Text
acme_tax_id = text "IT01234567890"

abbrev pub northwind_tax_id : Text
northwind_tax_id = text "IT99999999999"

abbrev pub acme_supplies : ℕ → Vendor
acme_supplies id = record {
  id = id;
  legal_name = text "ACME Supplies Ltd";
  tax_id = some acme_tax_id;
  aliases = text "ACME" ∷ text "ACME Supplies" ∷ [];
  country = some (text "IT");
  active = true;
}

abbrev pub demo_order : ℕ → ℕ → PurchaseOrder
demo_order id vendor_id = record {
  id = id;
  po_number = text "PO-5567";
  vendor_id = vendor_id;
  currency = text "EUR";
  subtotal = amount 10000 2;
  tax_amount = amount 2200 2;
  total = amount 12200 2;
  status = text "open";
  lines =
      record {
        description = text "Widget blue 10mm";
        quantity = amount 10 0;
        unit_price = amount 500 2;
        line_total = amount 5000 2;
      }
      ∷ record {
        description = text "Bracket steel";
        quantity = amount 4 0;
        unit_price = amount 1250 2;
        line_total = amount 5000 2;
      }
      ∷ [];
}

abbrev pub northwind : ℕ → Vendor
northwind id = record {
  id = id;
  legal_name = text "Northwind Traders SRL";
  tax_id = some northwind_tax_id;
  aliases = text "Northwind" ∷ [];
  country = some (text "IT");
  active = true;
}

-- The two halves of `main` of seed_demo.py.
unfoldable pub seed_acme : List Text → ℕ → ℕ → Tables → Result Tables
seed_acme known vendor_id order_id tables =
    if contains known acme_tax_id
    then ok tables
    else add_order (demo_order order_id vendor_id) (add_vendor (acme_supplies vendor_id) tables)

unfoldable pub seed_northwind : List Text → ℕ → Tables → Tables
seed_northwind known vendor_id tables =
    if contains known northwind_tax_id then tables else add_vendor (northwind vendor_id) tables

unfoldable pub seed_demo : ℕ → ℕ → ℕ → Tables → Result (Unit {0} × Tables)
seed_demo acme_id order_id northwind_id tables = do
  let known = tax_ids tables.vendors
  seeded ← seed_acme known acme_id order_id tables
  ok (tt, seed_northwind known northwind_id seeded)

unfoldable pub run_seed_demo : ℕ → ℕ → ℕ → Tables → Result (Unit {0}) × Tables
run_seed_demo acme_id order_id northwind_id =
    session_scope (seed_demo acme_id order_id northwind_id)

-- What a fixture's file gives: its name, and the two entries that are read.
pub record FixtureFile : Type 0 where
  pub stem : Text
  pub supplier_tax_id : Option Text
  pub supplier_name : Option Text

abbrev fixture_vendor : ℕ → Text → Text → Vendor
fixture_vendor id name tax = record {
  id = id;
  legal_name = name;
  tax_id = some tax;
  aliases = [];
  country = some (text "IT");
  active = true;
}

abbrev if_given : Option Text → Option Text → Option (Text × Text)
if_given (some (c ∷ name)) (some (d ∷ tax)) = some (c ∷ name, d ∷ tax)
if_given _ _ = none

-- The name and the tax id of a fixture, unless it is a template or one of them is missing or empty.
unfoldable pub usable : FixtureFile → Option (Text × Text)
usable f =
    if starts_with f.stem (text "_TEMPLATE")
    then none
    else if_given f.supplier_name f.supplier_tax_id

-- What the loop of seed_eval_vendors.py carries: `existing`, `seeded`, and the vendors.
pub record Seeding : Type 0 where
  pub existing : List Text
  pub seeded : ℕ
  pub vendors : List Vendor

module _ (uuid4 : ℕ → ℕ) where
  abbrev pub seed_one : Option (Text × Text) → Seeding → Seeding
  seed_one none s = s
  seed_one (some (name, tax)) s = if contains s.existing tax then s else record {
    existing = tax ∷ s.existing;
    seeded = suc s.seeded;
    vendors = s.vendors ++ (fixture_vendor (uuid4 s.seeded) name tax ∷ []);
  }

  unfoldable pub seed_all : List FixtureFile → Seeding → Seeding
  seed_all [] s = s
  seed_all (f ∷ fs) s = seed_all fs (seed_one (usable f) s)

  -- `main`: how many it seeds, and the vendors after it.
  unfoldable pub seed_eval_vendors : List FixtureFile → Tables → Result (ℕ × Tables)
  seed_eval_vendors fs tables =
      let done = seed_all fs (record {
        existing = truthy_tax_ids tables.vendors;
        seeded = 0;
        vendors = tables.vendors;
      }) in
      ok (done.seeded, record tables { vendors = done.vendors })
