-- ===== src/Migrations/Tables.antt =====
-- The tables that the migrations create, migrations/versions of the repository.
use Prim.Native.String.{String}
use ai_account_payable_invoi.Prelude.{Bool, true, false, List, [], ◌∷◌}
use ai_account_payable_invoi.Schema.{
  ColumnType, uuid, date_time, text_type, integer, big_integer, boolean, json, float, string,
  numeric, enum_of, OnDelete, cascade, restrict, set_null, Column, Reference,
}

-- A `ForeignKeyConstraint` of one column.
pub record Constraint : Type 0 where
  pub column : String
  pub reference : Reference

pub record Table : Type 0 where
  pub name : String
  pub columns : List Column
  pub foreign_keys : List Constraint
  pub primary_key : String

-- An index on one column.
pub record Index : Type 0 where
  pub name : String
  pub table : String
  pub column : String
  pub is_unique : Bool

abbrev required : String → ColumnType → Column
required name type = record {
  name = name;
  type = type;
  is_nullable = false;
  has_server_default = false;
}

abbrev optional : String → ColumnType → Column
optional name type = record (required name type) { is_nullable = true }

-- With the current time as the server's default.
abbrev defaulted : String → ColumnType → Column
defaulted name type = record (required name type) { has_server_default = true }

abbrev references : String → String → OnDelete → Constraint
references column table rule = record {
  column = column;
  reference = record { table = table; ondelete = rule };
}

abbrev pub plain_index : String → String → String → Index
plain_index name table column = record {
  name = name;
  table = table;
  column = column;
  is_unique = false;
}

abbrev pub unique_index : String → String → String → Index
unique_index name table column = record (plain_index name table column) { is_unique = true }

abbrev pub invoicestatus_enum : List String
invoicestatus_enum =
    "received" ∷ "extracting" ∷ "extracted" ∷ "matching" ∷ "validating" ∷ "needs_review"
    ∷ "auto_approved" ∷ "approved" ∷ "rejected" ∷ "exporting" ∷ "exported" ∷ "failed" ∷ []

abbrev pub invoicesource_enum : List String
invoicesource_enum = "upload" ∷ "email" ∷ "api" ∷ []

unfoldable pub invoices_table : Table
invoices_table = record {
  name = "invoices";
  columns =
      required "id" uuid
      ∷ defaulted "created_at" date_time
      ∷ defaulted "updated_at" date_time
      ∷ required "status" (enum_of invoicestatus_enum 32)
      ∷ required "source" (enum_of invoicesource_enum 32)
      ∷ required "original_filename" (string 500)
      ∷ required "content_type" (string 255)
      ∷ required "size_bytes" big_integer
      ∷ required "storage_key" (string 1024)
      ∷ required "content_sha256" (string 64)
      ∷ optional "failure_reason" text_type
      ∷ [];
  foreign_keys = [];
  primary_key = "id";
}

unfoldable pub extractions_table : Table
extractions_table = record {
  name = "extractions";
  columns =
      required "id" uuid
      ∷ required "invoice_id" uuid
      ∷ defaulted "created_at" date_time
      ∷ required "model" (string 128)
      ∷ required "text_method" (string 32)
      ∷ required "attempts" integer
      ∷ required "ok" boolean
      ∷ optional "result_json" json
      ∷ optional "field_confidence" json
      ∷ optional "error" text_type
      ∷ optional "raw_response" text_type
      ∷ [];
  foreign_keys = references "invoice_id" "invoices" cascade ∷ [];
  primary_key = "id";
}

unfoldable pub vendors_table : Table
vendors_table = record {
  name = "vendors";
  columns =
      required "id" uuid
      ∷ defaulted "created_at" date_time
      ∷ required "legal_name" (string 500)
      ∷ optional "tax_id" (string 64)
      ∷ required "aliases" json
      ∷ optional "country" (string 2)
      ∷ required "active" boolean
      ∷ [];
  foreign_keys = [];
  primary_key = "id";
}

unfoldable pub purchase_orders_table : Table
purchase_orders_table = record {
  name = "purchase_orders";
  columns =
      required "id" uuid
      ∷ defaulted "created_at" date_time
      ∷ required "po_number" (string 128)
      ∷ required "vendor_id" uuid
      ∷ required "currency" (string 3)
      ∷ required "subtotal" (numeric 12 2)
      ∷ required "tax_amount" (numeric 12 2)
      ∷ required "total" (numeric 12 2)
      ∷ required "status" (string 16)
      ∷ [];
  foreign_keys = references "vendor_id" "vendors" restrict ∷ [];
  primary_key = "id";
}

unfoldable pub invoice_matches_table : Table
invoice_matches_table = record {
  name = "invoice_matches";
  columns =
      required "id" uuid
      ∷ required "invoice_id" uuid
      ∷ defaulted "created_at" date_time
      ∷ optional "vendor_id" uuid
      ∷ required "vendor_match_method" (string 32)
      ∷ required "vendor_confidence" float
      ∷ required "vendor_candidates" json
      ∷ optional "po_id" uuid
      ∷ required "po_match_method" (string 32)
      ∷ [];
  foreign_keys =
      references "invoice_id" "invoices" cascade
      ∷ references "po_id" "purchase_orders" set_null
      ∷ references "vendor_id" "vendors" set_null
      ∷ [];
  primary_key = "id";
}

unfoldable pub po_lines_table : Table
po_lines_table = record {
  name = "po_lines";
  columns =
      required "id" uuid
      ∷ required "po_id" uuid
      ∷ required "description" (string 500)
      ∷ required "quantity" (numeric 12 3)
      ∷ required "unit_price" (numeric 12 2)
      ∷ required "line_total" (numeric 12 2)
      ∷ [];
  foreign_keys = references "po_id" "purchase_orders" cascade ∷ [];
  primary_key = "id";
}

unfoldable pub validations_table : Table
validations_table = record {
  name = "validations";
  columns =
      required "id" uuid
      ∷ required "invoice_id" uuid
      ∷ defaulted "created_at" date_time
      ∷ required "results" json
      ∷ required "passed" boolean
      ∷ [];
  foreign_keys = references "invoice_id" "invoices" cascade ∷ [];
  primary_key = "id";
}

unfoldable pub audit_log_table : Table
audit_log_table = record {
  name = "audit_log";
  columns =
      required "id" uuid
      ∷ required "invoice_id" uuid
      ∷ required "created_at" date_time
      ∷ required "from_status" (string 32)
      ∷ required "to_status" (string 32)
      ∷ required "actor" (string 64)
      ∷ optional "reason" text_type
      ∷ [];
  foreign_keys = references "invoice_id" "invoices" cascade ∷ [];
  primary_key = "id";
}

unfoldable pub exports_table : Table
exports_table = record {
  name = "exports";
  columns =
      required "id" uuid
      ∷ required "invoice_id" uuid
      ∷ defaulted "created_at" date_time
      ∷ required "storage_key" (string 1024)
      ∷ required "contract_version" (string 16)
      ∷ required "signature" (string 128)
      ∷ [];
  foreign_keys = references "invoice_id" "invoices" cascade ∷ [];
  primary_key = "id";
}
