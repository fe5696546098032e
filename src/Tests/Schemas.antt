-- ===== src/Tests/Schemas.antt =====
-- The theorems on the seeds and on the migrations at concrete databases.
use ai_account_payable_invoi.Prelude.{
  ◌≡◌, ◌↔◌, ◌≢◌, ◌⊎◌, ◌≤◌, refl, Bool, true, false, Option, none, some, List, [], ◌∷◌, ◌+◌, ◌&&◌,
  ◌==◌, string_eq, map, contains, length, if◌then◌else◌,
}
use ai_account_payable_invoi.Text.{text}
use ai_account_payable_invoi.Domain.State.{validating, validated, value}
use ai_account_payable_invoi.Models.{Tables}
use ai_account_payable_invoi.Services.Outcome.{Error, ok, raised}
use ai_account_payable_invoi.Schema.{purchase_orders, table_name, columns_of}
use ai_account_payable_invoi.Seeds.{FixtureFile, run_seed_demo, truthy_tax_ids}
use ai_account_payable_invoi.Seeds.Demo.{run_seed_demo-again}
use ai_account_payable_invoi.Seeds.Vendors.{IsDistinct, IsSeeded, seed_eval_vendors-IsSeeded}
use ai_account_payable_invoi.Migrations.Tables.{invoicestatus_enum}
use ai_account_payable_invoi.Migrations.{
  Creation, create_table, create_index, Removal, drop_table, drop_index, add_invoices, add_exports,
  upgrade,
}
use ai_account_payable_invoi.Migrations.Undo.{removal_of, upgrades, downgrades, downgrades-upgrades}
use ai_account_payable_invoi.Migrations.Agree.{
  migrated, declared, migrated-declared, width, status_listed_iff,
}

abbrev no_rows : Tables
no_rows = record { invoices = []; vendors = []; purchase_orders = [] }

run_seed_demo-again_example :
    let (outcome, after) = run_seed_demo 1 2 3 no_rows in
    ((why : Error) × (outcome ≡ raised why) × (after ≡ no_rows))
    ⊎ ((outcome ≡ ok tt) × (run_seed_demo 4 5 6 after ≡ (ok tt, after)))
run_seed_demo-again_example = run_seed_demo-again 1 2 3 4 5 6 no_rows

abbrev files : List FixtureFile
files =
    record {
      stem = text "a";
      supplier_tax_id = some (text "IT1");
      supplier_name = some (text "Acme");
    }
    ∷ record { stem = text "b"; supplier_tax_id = none; supplier_name = some (text "Beta") }
    ∷ []

nothing_twice : IsDistinct (truthy_tax_ids [])
unfolding truthy_tax_ids
nothing_twice = tt

seed_eval_vendors-IsSeeded_example : IsSeeded (λ n. n) (λ n. n + 5) files no_rows
seed_eval_vendors-IsSeeded_example =
    seed_eval_vendors-IsSeeded (λ n. n) (λ n. n + 5) files no_rows nothing_twice

-- A schema as what was created last, of which only the last may be removed.
abbrev create : Creation → List Creation → Option (List Creation)
create c s = some (c ∷ s)

abbrev is_removed_by : Creation → Removal → Bool
is_removed_by (create_table t) (drop_table name) = t.name == name
is_removed_by (create_index i) (drop_index name table) = i.name == name && i.table == table
is_removed_by c r = false

abbrev remove : Removal → List Creation → Option (List Creation)
remove r [] = none
remove r (c ∷ s) = if is_removed_by c r then some s else none

removes_last :
    (c : Creation) (s t : List Creation) → create c s ≡ some t → remove (removal_of c) t ≡ some s
removes_last (create_table x) s t h =
    let e : create_table x ∷ s ≡ t = cc in rw (← e, (string_eq.beq_iff x.name x.name).1 refl) refl
removes_last (create_index x) s t h =
    let e : create_index x ∷ s ≡ t = cc in
    rw (← e, (string_eq.beq_iff x.name x.name).1 refl, (string_eq.beq_iff x.table x.table).1 refl)
      refl

abbrev pushed : List Creation → List Creation → List Creation
pushed [] s = s
pushed (c ∷ cs) s = pushed cs (c ∷ s)

abbrev two_revisions : List Creation
two_revisions = pushed (upgrade add_exports) (pushed (upgrade add_invoices) [])

they_upgrade : upgrades create (add_invoices ∷ add_exports ∷ []) [] ≡ some two_revisions
unfolding upgrade
they_upgrade = refl

downgrades-upgrades_example :
    downgrades remove (add_invoices ∷ add_exports ∷ []) two_revisions ≡ some []
downgrades-upgrades_example =
    downgrades-upgrades create remove removes_last (add_invoices ∷ add_exports ∷ []) []
      two_revisions they_upgrade

migrated-declared_example :
    migrated (table_name purchase_orders)
    ≡ map (declared (table_name purchase_orders)) (columns_of purchase_orders)
migrated-declared_example = migrated-declared purchase_orders

status_listed_iff_example :
    ((contains invoicestatus_enum (value validating) ≡ true) ↔ (validating ≢ validated))
    × (length (text (value validating)) ≤ width "invoices" "status")
    × (length (text (value validating)) ≤ width "audit_log" "from_status")
    × (length (text (value validating)) ≤ width "audit_log" "to_status")
status_listed_iff_example = status_listed_iff validating
