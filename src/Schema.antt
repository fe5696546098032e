-- ===== src/Schema.antt =====
-- The tables that src/invoice_ops/models.py declares: each `mapped_column` with its options, as
-- SQLAlchemy documents them.
use Prim.Native.String.{String}
use ai_account_payable_invoi.Prelude.{ℕ, Bool, true, false, Option, none, some, List, [], ◌∷◌, map}
use ai_account_payable_invoi.Domain.State.{all_statuses, value}
use ai_account_payable_invoi.Models.{InvoiceSource, upload, email, api}

-- A column's type. An enumeration that is not native is stored as a text of a bounded length.
pub data ColumnType : Type 0 where
  uuid date_time text_type integer big_integer boolean json float : ColumnType
  string : ℕ → ColumnType
  numeric : ℕ → ℕ → ColumnType
  enum_of : List String → ℕ → ColumnType

pub data OnDelete : Type 0 where
  cascade restrict set_null : OnDelete

pub record Column : Type 0 where
  pub name : String
  pub type : ColumnType
  pub is_nullable : Bool
  pub has_server_default : Bool

-- The table and the rule of a reference to a table's `id`.
pub record Reference : Type 0 where
  pub table : String
  pub ondelete : OnDelete

pub data Indexed : Type 0 where
  not_indexed plain unique : Indexed

-- A `mapped_column`.
pub record Mapped : Type 0 where
  pub column : Column
  pub is_primary_key : Bool
  pub reference : Option Reference
  pub indexed : Indexed

abbrev mapped : String → ColumnType → Mapped
mapped name type = record {
  column = record { name = name; type = type; is_nullable = false; has_server_default = false };
  is_primary_key = false;
  reference = none;
  indexed = not_indexed;
}

abbrev primary_key : String → Mapped
primary_key name = record (mapped name uuid) { is_primary_key = true }

abbrev nullable : Mapped → Mapped
nullable m = record m { column = record m.column { is_nullable = true } }

abbrev server_default : Mapped → Mapped
server_default m = record m { column = record m.column { has_server_default = true } }

abbrev foreign_key : String → OnDelete → Mapped → Mapped
foreign_key table rule m = record m { reference = some (record { table = table; ondelete = rule }) }

abbrev index : Mapped → Mapped
index m = record m { indexed = plain }

abbrev unique_index : Mapped → Mapped
unique_index m = record m { indexed = unique }

abbrev source_value : InvoiceSource → String
source_value upload = "upload"
source_value email = "email"
source_value api = "api"

-- `_string_enum`, by the values of the members.
unfoldable pub status_values : List String
status_values = map value all_statuses

abbrev source_values : List String
source_values = map source_value (upload ∷ email ∷ api ∷ [])

-- The classes of the rows.
pub data OrmTable : Type 0 where
  invoices extractions vendors purchase_orders po_lines invoice_matches : OrmTable
  validations audit_log exports : OrmTable

abbrev pub table_name : OrmTable → String
table_name invoices = "invoices"
table_name extractions = "extractions"
table_name vendors = "vendors"
table_name purchase_orders = "purchase_orders"
table_name po_lines = "po_lines"
table_name invoice_matches = "invoice_matches"
table_name validations = "validations"
table_name audit_log = "audit_log"
table_name exports = "exports"

unfoldable pub invoices_columns : List Mapped
invoices_columns =
    primary_key "id"
    ∷ server_default (mapped "created_at" date_time)
    ∷ server_default (mapped "updated_at" date_time)
    ∷ index (mapped "status" (enum_of status_values 32))
    ∷ mapped "source" (enum_of source_values 32)
    ∷ mapped "original_filename" (string 500)
    ∷ mapped "content_type" (string 255)
    ∷ mapped "size_bytes" big_integer
    ∷ mapped "storage_key" (string 1024)
    ∷ unique_index (mapped "content_sha256" (string 64))
    ∷ nullable (mapped "failure_reason" text_type)
    ∷ []

unfoldable pub extractions_columns : List Mapped
extractions_columns =
    primary_key "id"
    ∷ index (foreign_key "invoices" cascade (mapped "invoice_id" uuid))
    ∷ server_default (mapped "created_at" date_time)
    ∷ mapped "model" (string 128)
    ∷ mapped "text_method" (string 32)
    ∷ mapped "attempts" integer
    ∷ mapped "ok" boolean
    ∷ nullable (mapped "result_json" json)
    ∷ nullable (mapped "field_confidence" json)
    ∷ nullable (mapped "error" text_type)
    ∷ nullable (mapped "raw_response" text_type)
    ∷ []

unfoldable pub vendors_columns : List Mapped
vendors_columns =
    primary_key "id"
    ∷ server_default (mapped "created_at" date_time)
    ∷ mapped "legal_name" (string 500)
    ∷ index (nullable (mapped "tax_id" (string 64)))
    ∷ mapped "aliases" json
    ∷ nullable (mapped "country" (string 2))
    ∷ mapped "active" boolean
    ∷ []

unfoldable pub purchase_orders_columns : List Mapped
purchase_orders_columns =
    primary_key "id"
    ∷ server_default (mapped "created_at" date_time)
    ∷ unique_index (mapped "po_number" (string 128))
    ∷ index (foreign_key "vendors" restrict (mapped "vendor_id" uuid))
    ∷ mapped "currency" (string 3)
    ∷ mapped "subtotal" (numeric 12 2)
    ∷ mapped "tax_amount" (numeric 12 2)
    ∷ mapped "total" (numeric 12 2)
    ∷ mapped "status" (string 16)
    ∷ []

unfoldable pub po_lines_columns : List Mapped
po_lines_columns =
    primary_key "id"
    ∷ index (foreign_key "purchase_orders" cascade (mapped "po_id" uuid))
    ∷ mapped "description" (string 500)
    ∷ mapped "quantity" (numeric 12 3)
    ∷ mapped "unit_price" (numeric 12 2)
    ∷ mapped "line_total" (numeric 12 2)
    ∷ []

unfoldable pub invoice_matches_columns : List Mapped
invoice_matches_columns =
    primary_key "id"
    ∷ index (foreign_key "invoices" cascade (mapped "invoice_id" uuid))
    ∷ server_default (mapped "created_at" date_time)
    ∷ index (foreign_key "vendors" set_null (nullable (mapped "vendor_id" uuid)))
    ∷ mapped "vendor_match_method" (string 32)
    ∷ mapped "vendor_confidence" float
    ∷ mapped "vendor_candidates" json
    ∷ index (foreign_key "purchase_orders" set_null (nullable (mapped "po_id" uuid)))
    ∷ mapped "po_match_method" (string 32)
    ∷ []

unfoldable pub validations_columns : List Mapped
validations_columns =
    primary_key "id"
    ∷ index (foreign_key "invoices" cascade (mapped "invoice_id" uuid))
    ∷ server_default (mapped "created_at" date_time)
    ∷ mapped "results" json
    ∷ mapped "passed" boolean
    ∷ []

unfoldable pub audit_log_columns : List Mapped
audit_log_columns =
    primary_key "id"
    ∷ index (foreign_key "invoices" cascade (mapped "invoice_id" uuid))
    ∷ mapped "created_at" date_time
    ∷ mapped "from_status" (string 32)
    ∷ mapped "to_status" (string 32)
    ∷ mapped "actor" (string 64)
    ∷ nullable (mapped "reason" text_type)
    ∷ []

unfoldable pub exports_columns : List Mapped
exports_columns =
    primary_key "id"
    ∷ index (foreign_key "invoices" cascade (mapped "invoice_id" uuid))
    ∷ server_default (mapped "created_at" date_time)
    ∷ mapped "storage_key" (string 1024)
    ∷ mapped "contract_version" (string 16)
    ∷ mapped "signature" (string 128)
    ∷ []

abbrev pub columns_of : OrmTable → List Mapped
columns_of invoices = invoices_columns
columns_of extractions = extractions_columns
columns_of vendors = vendors_columns
columns_of purchase_orders = purchase_orders_columns
columns_of po_lines = po_lines_columns
columns_of invoice_matches = invoice_matches_columns
columns_of validations = validations_columns
columns_of audit_log = audit_log_columns
columns_of exports = exports_columns
