-- ===== src/Migrations.antt =====
-- The schema migrations, migrations/versions of the repository: what `upgrade` and `downgrade` of each
-- revision ask of Alembic, in their order.
pub mod Tables
pub mod Undo
pub mod Agree
use Prim.Native.String.{String}
use ai_account_payable_invoi.Prelude.{Option, none, some, List, [], ◌∷◌}
use ai_account_payable_invoi.Migrations.Tables.{
  Table, Index, plain_index, unique_index, invoices_table, extractions_table, vendors_table,
  purchase_orders_table, invoice_matches_table, po_lines_table, validations_table, audit_log_table,
  exports_table,
}

pub data Creation : Type 0 where
  create_table : Table → Creation
  create_index : Index → Creation

pub data Removal : Type 0 where
  drop_table : String → Removal
  drop_index : String → String → Removal

-- The revisions, from the first to the last.
pub data Revision : Type 0 where
  add_invoices add_extractions add_master_data add_validations add_audit_log add_exports : Revision

abbrev pub revision_id : Revision → String
revision_id add_invoices = "bdfe770ade26"
revision_id add_extractions = "81057ea53af5"
revision_id add_master_data = "ef9c3e56e17a"
revision_id add_validations = "a5b261d0c8d2"
revision_id add_audit_log = "6af6f8f4cdcd"
revision_id add_exports = "1503d349d50d"

unfoldable pub down_revision : Revision → Option String
down_revision add_invoices = none
down_revision add_extractions = some "bdfe770ade26"
down_revision add_master_data = some "81057ea53af5"
down_revision add_validations = some "ef9c3e56e17a"
down_revision add_audit_log = some "a5b261d0c8d2"
down_revision add_exports = some "6af6f8f4cdcd"

add_invoices_upgrade : List Creation
unfolding invoices_table
add_invoices_upgrade =
    create_table invoices_table
    ∷ create_index (unique_index "ix_invoices_content_sha256" "invoices" "content_sha256")
    ∷ create_index (plain_index "ix_invoices_status" "invoices" "status")
    ∷ []

add_extractions_upgrade : List Creation
unfolding extractions_table
add_extractions_upgrade =
    create_table extractions_table
    ∷ create_index (plain_index "ix_extractions_invoice_id" "extractions" "invoice_id")
    ∷ []

add_master_data_upgrade : List Creation
unfolding vendors_table purchase_orders_table invoice_matches_table po_lines_table
add_master_data_upgrade =
    create_table vendors_table
    ∷ create_index (plain_index "ix_vendors_tax_id" "vendors" "tax_id")
    ∷ create_table purchase_orders_table
    ∷ create_index (unique_index "ix_purchase_orders_po_number" "purchase_orders" "po_number")
    ∷ create_index (plain_index "ix_purchase_orders_vendor_id" "purchase_orders" "vendor_id")
    ∷ create_table invoice_matches_table
    ∷ create_index (plain_index "ix_invoice_matches_invoice_id" "invoice_matches" "invoice_id")
    ∷ create_index (plain_index "ix_invoice_matches_po_id" "invoice_matches" "po_id")
    ∷ create_index (plain_index "ix_invoice_matches_vendor_id" "invoice_matches" "vendor_id")
    ∷ create_table po_lines_table
    ∷ create_index (plain_index "ix_po_lines_po_id" "po_lines" "po_id")
    ∷ []

add_validations_upgrade : List Creation
unfolding validations_table
add_validations_upgrade =
    create_table validations_table
    ∷ create_index (plain_index "ix_validations_invoice_id" "validations" "invoice_id")
    ∷ []

add_audit_log_upgrade : List Creation
unfolding audit_log_table
add_audit_log_upgrade =
    create_table audit_log_table
    ∷ create_index (plain_index "ix_audit_log_invoice_id" "audit_log" "invoice_id")
    ∷ []

add_exports_upgrade : List Creation
unfolding exports_table
add_exports_upgrade =
    create_table exports_table
    ∷ create_index (plain_index "ix_exports_invoice_id" "exports" "invoice_id")
    ∷ []

unfoldable pub upgrade : Revision → List Creation
unfolding add_invoices_upgrade add_extractions_upgrade add_master_data_upgrade
    add_validations_upgrade add_audit_log_upgrade add_exports_upgrade
upgrade add_invoices = add_invoices_upgrade
upgrade add_extractions = add_extractions_upgrade
upgrade add_master_data = add_master_data_upgrade
upgrade add_validations = add_validations_upgrade
upgrade add_audit_log = add_audit_log_upgrade
upgrade add_exports = add_exports_upgrade

add_invoices_downgrade : List Removal
add_invoices_downgrade =
    drop_index "ix_invoices_status" "invoices"
    ∷ drop_index "ix_invoices_content_sha256" "invoices"
    ∷ drop_table "invoices"
    ∷ []

add_extractions_downgrade : List Removal
add_extractions_downgrade =
    drop_index "ix_extractions_invoice_id" "extractions" ∷ drop_table "extractions" ∷ []

add_master_data_downgrade : List Removal
add_master_data_downgrade =
    drop_index "ix_po_lines_po_id" "po_lines"
    ∷ drop_table "po_lines"
    ∷ drop_index "ix_invoice_matches_vendor_id" "invoice_matches"
    ∷ drop_index "ix_invoice_matches_po_id" "invoice_matches"
    ∷ drop_index "ix_invoice_matches_invoice_id" "invoice_matches"
    ∷ drop_table "invoice_matches"
    ∷ drop_index "ix_purchase_orders_vendor_id" "purchase_orders"
    ∷ drop_index "ix_purchase_orders_po_number" "purchase_orders"
    ∷ drop_table "purchase_orders"
    ∷ drop_index "ix_vendors_tax_id" "vendors"
    ∷ drop_table "vendors"
    ∷ []

add_validations_downgrade : List Removal
add_validations_downgrade =
    drop_index "ix_validations_invoice_id" "validations" ∷ drop_table "validations" ∷ []

add_audit_log_downgrade : List Removal
add_audit_log_downgrade =
    drop_index "ix_audit_log_invoice_id" "audit_log" ∷ drop_table "audit_log" ∷ []

add_exports_downgrade : List Removal
add_exports_downgrade = drop_index "ix_exports_invoice_id" "exports" ∷ drop_table "exports" ∷ []

unfoldable pub downgrade : Revision → List Removal
unfolding add_invoices_downgrade add_extractions_downgrade add_master_data_downgrade
    add_validations_downgrade add_audit_log_downgrade add_exports_downgrade
downgrade add_invoices = add_invoices_downgrade
downgrade add_extractions = add_extractions_downgrade
downgrade add_master_data = add_master_data_downgrade
downgrade add_validations = add_validations_downgrade
downgrade add_audit_log = add_audit_log_downgrade
downgrade add_exports = add_exports_downgrade
