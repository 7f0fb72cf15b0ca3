-- ===== src/Migrations.antt =====
-- The initial migration (alembic/versions/20260101_0001_initial_schema.py).
pub mod Closed
pub mod RoundTrip
pub mod Frame
use mathlib.Core.Option.{bind}
use hub_meta_conversion_serv.Base.{Bool, true, false, String, Option, none, some, List, [], ◌∷◌}
use hub_meta_conversion_serv.Ddl.{
  ColumnType, uuid, jsonb, integer, datetime_tz, string, numeric, ServerDefault, text, now, Column,
  ForeignKey, TableDef, IndexDef, Op, create_table, create_index, drop_table, drop_index, Catalog,
  Ddl,
}

-- `sa.Column(name, type, nullable=…)`
abbrev pub column : String → ColumnType → Bool → Column
column name type nullable = record {
  name = name;
  type = type;
  nullable = nullable;
  primary_key = false;
  foreign_key = none;
  server_default = none;
}

abbrev id_column : Column
id_column = record (column "id" uuid false) { primary_key = true }

abbrev created_at_column : Column
created_at_column = record (column "created_at" datetime_tz false) { server_default = some now }

abbrev updated_at_column : Column
updated_at_column = record (column "updated_at" datetime_tz false) { server_default = some now }

-- A column with `sa.ForeignKey(table.id, ondelete="CASCADE")`.
abbrev foreign_column : String → String → Column
foreign_column name table = record (column name uuid false) {
  foreign_key = some (record { table = table; column = "id"; ondelete = some "CASCADE" });
}

abbrev status_column : String → Column
status_column default = record (column "status" (string (some 32)) false) {
  server_default = some (text default);
}

abbrev pub advertisers_table : TableDef
advertisers_table = record {
  name = "advertisers";
  columns =
      id_column
      ∷ column "name" (string (some 255)) false
      ∷ column "external_ref" (string (some 255)) false
      ∷ column "meta_business_id" (string (some 64)) true
      ∷ column "meta_ad_account_id" (string (some 64)) true
      ∷ created_at_column
      ∷ updated_at_column
      ∷ [];
  uniques = record { name = "uq_advertisers_external_ref"; columns = "external_ref" ∷ [] } ∷ [];
}

abbrev pub pixels_table : TableDef
pixels_table = record {
  name = "pixels";
  columns =
      id_column
      ∷ foreign_column "advertiser_id" "advertisers"
      ∷ column "meta_pixel_id" (string (some 64)) false
      ∷ column "name" (string (some 255)) false
      ∷ status_column "ACTIVE"
      ∷ created_at_column
      ∷ updated_at_column
      ∷ [];
  uniques = record { name = "uq_pixels_meta_pixel_id"; columns = "meta_pixel_id" ∷ [] } ∷ [];
}

abbrev pub conversion_tags_table : TableDef
conversion_tags_table = record {
  name = "conversion_tags";
  columns =
      id_column
      ∷ foreign_column "advertiser_id" "advertisers"
      ∷ foreign_column "pixel_id" "pixels"
      ∷ column "name" (string (some 255)) false
      ∷ column "event_type" (string (some 64)) false
      ∷ column "category" (string (some 64)) false
      ∷ column "value" (numeric 18 4) true
      ∷ column "currency" (string (some 3)) true
      ∷ column "rule" jsonb true
      ∷ column "payload" jsonb true
      ∷ column "meta_custom_conversion_id" (string (some 64)) true
      ∷ status_column "PENDING"
      ∷ created_at_column
      ∷ updated_at_column
      ∷ [];
  uniques =
      record {
        name = "uq_conversion_tags_advertiser_id_name";
        columns = "advertiser_id" ∷ "name" ∷ [];
      }
      ∷ [];
}

abbrev pub oauth_tokens_table : TableDef
oauth_tokens_table = record {
  name = "oauth_tokens";
  columns =
      id_column
      ∷ foreign_column "advertiser_id" "advertisers"
      ∷ column "provider" (string (some 32)) false
      ∷ column "access_token_encrypted" (string none) false
      ∷ column "refresh_token_encrypted" (string none) true
      ∷ column "expires_at" datetime_tz false
      ∷ column "scopes" (string none) true
      ∷ created_at_column
      ∷ updated_at_column
      ∷ [];
  uniques =
      record {
        name = "uq_oauth_tokens_advertiser_id_provider";
        columns = "advertiser_id" ∷ "provider" ∷ [];
      }
      ∷ [];
}

abbrev pub idempotency_records_table : TableDef
idempotency_records_table = record {
  name = "idempotency_records";
  columns =
      id_column
      ∷ column "endpoint" (string (some 128)) false
      ∷ column "key" (string (some 128)) false
      ∷ column "request_hash" (string (some 64)) false
      ∷ column "response_status" integer false
      ∷ column "response_body" jsonb false
      ∷ column "expires_at" datetime_tz false
      ∷ created_at_column
      ∷ updated_at_column
      ∷ [];
  uniques =
      record { name = "uq_idempotency_records_endpoint_key"; columns = "endpoint" ∷ "key" ∷ [] }
      ∷ [];
}

abbrev pub index : String → String → String → IndexDef
index name table column = record { name = name; table = table; columns = column ∷ [] }

unfoldable pub upgrade : List Op
upgrade =
    create_table advertisers_table
    ∷ create_table pixels_table
    ∷ create_index (index "ix_pixels_advertiser_id" "pixels" "advertiser_id")
    ∷ create_table conversion_tags_table
    ∷ create_index (index "ix_conversion_tags_advertiser_id" "conversion_tags" "advertiser_id")
    ∷ create_index (index "ix_conversion_tags_pixel_id" "conversion_tags" "pixel_id")
    ∷ create_table oauth_tokens_table
    ∷ create_index (index "ix_oauth_tokens_advertiser_id" "oauth_tokens" "advertiser_id")
    ∷ create_table idempotency_records_table
    ∷ []

unfoldable pub downgrade : List Op
downgrade =
    drop_table "idempotency_records"
    ∷ drop_index "ix_oauth_tokens_advertiser_id" "oauth_tokens"
    ∷ drop_table "oauth_tokens"
    ∷ drop_index "ix_conversion_tags_pixel_id" "conversion_tags"
    ∷ drop_index "ix_conversion_tags_advertiser_id" "conversion_tags"
    ∷ drop_table "conversion_tags"
    ∷ drop_index "ix_pixels_advertiser_id" "pixels"
    ∷ drop_table "pixels"
    ∷ drop_table "advertisers"
    ∷ []

-- One operation after another; an exception ends the migration.
unfoldable pub run : Ddl → List Op → Catalog → Option Catalog
run ddl [] c = some c
run ddl (op ∷ ops) c = bind (ddl.apply op c) (λ c'. run ddl ops c')
