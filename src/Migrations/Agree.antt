-- ===== src/Migrations/Agree.antt =====
-- The migrations, migrations/versions of the repository, beside the tables that
-- src/invoice_ops/models.py declares.
use Prim.Native.String.{String}
use mathlib.Core.List.{flat_map}
use ai_account_payable_invoi.Prelude.{
  ℕ, ◌≡◌, ◌≢◌, ◌↔◌, ◌≤◌, refl, arith, Bool, true, false, Option, none, some, List, [], ◌∷◌, ◌++◌,
  map, length, contains, ◌==◌, string_eq, if◌then◌else◌,
}
use ai_account_payable_invoi.Text.{Text, text}
use ai_account_payable_invoi.Domain.State.{InvoiceStatus, validated, value}
use ai_account_payable_invoi.Schema.{
  ColumnType, string, enum_of, Column, Reference, Mapped, Indexed, not_indexed, plain, unique,
  OrmTable, invoices, extractions, vendors, purchase_orders, po_lines, invoice_matches, validations,
  audit_log, exports, table_name, columns_of, status_values, invoices_columns, extractions_columns,
  vendors_columns, purchase_orders_columns, po_lines_columns, invoice_matches_columns,
  validations_columns, audit_log_columns, exports_columns,
}
use ai_account_payable_invoi.Migrations.Tables.{Table, Constraint, invoicestatus_enum}
use ai_account_payable_invoi.Migrations.{
  Creation, create_table, create_index, Revision, add_invoices, add_extractions, add_master_data,
  add_validations, add_audit_log, add_exports, upgrade,
}

-- What a column is in the database, with the name of its index and whether that is unique.
pub record View : Type 0 where
  name : String
  type : ColumnType
  is_nullable : Bool
  has_server_default : Bool
  is_primary_key : Bool
  reference : Option Reference
  index : Option (Text × Bool)

-- An enumeration that is not native is stored as a text.
abbrev stored : ColumnType → ColumnType
stored (enum_of values width) = string width
stored t = t

-- SQLAlchemy's name for the index of a column.
abbrev index_name : String → String → Text
index_name table column = text "ix_" ++ (text table ++ (text "_" ++ text column))

abbrev declared_index : Text → Indexed → Option (Text × Bool)
declared_index name not_indexed = none
declared_index name plain = some (name, false)
declared_index name unique = some (name, true)

abbrev pub declared : String → Mapped → View
declared table m = record {
  name = m.column.name;
  type = stored m.column.type;
  is_nullable = m.column.is_nullable;
  has_server_default = m.column.has_server_default;
  is_primary_key = m.is_primary_key;
  reference = m.reference;
  index = declared_index (index_name table m.column.name) m.indexed;
}

abbrev history : List Revision
history =
    add_invoices ∷ add_extractions ∷ add_master_data ∷ add_validations ∷ add_audit_log ∷ add_exports
    ∷ []

-- All that the upgrades create, in order.
created : List Creation
unfolding upgrade
created = flat_map upgrade history

abbrev find_table : String → List Creation → Option Table
find_table name [] = none
find_table name (create_table t ∷ cs) = if t.name == name then some t else find_table name cs
find_table name (create_index i ∷ cs) = find_table name cs

abbrev find_index : String → String → List Creation → Option (Text × Bool)
find_index table column [] = none
find_index table column (create_table t ∷ cs) = find_index table column cs
find_index table column (create_index i ∷ cs) =
    let rest = find_index table column cs in
    if i.table == table
    then if i.column == column then some (text i.name, i.is_unique) else rest
    else rest

abbrev find_reference : String → List Constraint → Option Reference
find_reference column [] = none
find_reference column (k ∷ ks) =
    if k.column == column then some k.reference else find_reference column ks

abbrev migrated_column : Table → Column → View
migrated_column t c = record {
  name = c.name;
  type = stored c.type;
  is_nullable = c.is_nullable;
  has_server_default = c.has_server_default;
  is_primary_key = c.name == t.primary_key;
  reference = find_reference c.name t.foreign_keys;
  index = find_index t.name c.name created;
}

abbrev migrated_columns : Option Table → List View
migrated_columns none = []
migrated_columns (some t) = map (migrated_column t) t.columns

-- The columns that a table has after all the upgrades.
pub migrated : String → List View
unfolding created
migrated name = migrated_columns (find_table name created)

-- After the upgrades of all revisions every table has the columns that its class declares, in
-- order: with their names, the types that they are stored as, whether they may be null, whether
-- they have a default in the server, the primary key, what they refer to and by which rule, and the
-- name and uniqueness of their index.
pub migrated-declared :
    (t : OrmTable) → migrated (table_name t) ≡ map (declared (table_name t)) (columns_of t)
unfolding migrated flat_map upgrade invoices_columns extractions_columns vendors_columns
    purchase_orders_columns po_lines_columns invoice_matches_columns validations_columns
    audit_log_columns exports_columns status_values
migrated-declared invoices = refl
migrated-declared extractions = refl
migrated-declared vendors = refl
migrated-declared purchase_orders = refl
migrated-declared po_lines = refl
migrated-declared invoice_matches = refl
migrated-declared validations = refl
migrated-declared audit_log = refl
migrated-declared exports = refl

abbrev characters : ColumnType → ℕ
characters (string n) = n
characters (enum_of values n) = n
characters t = 0

abbrev widest : String → List Column → ℕ
widest column [] = 0
widest column (c ∷ cs) = if c.name == column then characters c.type else widest column cs

-- How many characters a column of a table holds, after all the upgrades.
unfoldable pub width : String → String → ℕ
unfolding created
width table column = in_table (find_table table created)
  where
    in_table : Option Table → ℕ
    in_table none = 0
    in_table (some t) = widest column t.columns

-- The value of a status is among those that the migration lists for its column exactly when it is
-- not VALIDATED, and it has a place in the characters of this column and of the two of the audit
-- log.
pub status_listed_iff :
    (s : InvoiceStatus)
    → ((contains invoicestatus_enum (value s) ≡ true) ↔ (s ≢ validated))
      × (length (text (value s)) ≤ width "invoices" "status")
      × (length (text (value s)) ≤ width "audit_log" "from_status")
      × (length (text (value s)) ≤ width "audit_log" "to_status")
unfolding width flat_map upgrade
status_listed_iff validated =
    (((λ h. cc), (λ n. absurd (n refl))), omega arith, omega arith, omega arith)
status_listed_iff s = (((λ h e. cc), (λ n. refl)), omega arith, omega arith, omega arith)
