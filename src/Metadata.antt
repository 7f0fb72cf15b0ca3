-- ===== src/Metadata.antt =====
-- The schema as the ORM declares it: the declarative base (app/db/base.py) and the columns and
-- constraints of the models (app/models).
pub mod Agreement
pub mod Constraints
use Prim.Native.Char.{Char, code}
use Prim.Native.String.{[] as empty, ◌∷◌ as cons, ◌++◌ as concat}
use hub_meta_conversion_serv.Base.{
  ℕ, Bool, true, false, not, ◌&&◌, String, Option, none, some, List, [], ◌∷◌, ◌++◌, map, filter,
  leb, ◌==◌, if◌then◌else◌,
}
use hub_meta_conversion_serv.Ddl.{
  ColumnType, uuid, jsonb, integer, datetime_tz, string, numeric, ServerDefault, now, Column,
  ForeignKey, UniqueConstraint, TableDef, IndexDef, Catalog,
}

-- `ch.isupper()` and `ch.lower()`, on the letters of Python's class names here, which are ASCII.
abbrev is_upper : Char → Bool
is_upper c = leb 65 (code c) && leb (code c) 90

abbrev lower_in : String → String → Char → Char
lower_in empty lowers c = c
lower_in (cons u uppers) empty c = c
lower_in (cons u uppers) (cons l lowers) c =
    let rest = lower_in uppers lowers c in if code c == code u then l else rest

abbrev lower : Char → Char
lower = lower_in "ABCDEFGHIJKLMNOPQRSTUVWXYZ" "abcdefghijklmnopqrstuvwxyz"

-- The loop of `__tablename__`, from the second character on.
unfoldable pub snake_rest : String → String
snake_rest empty = "s"
snake_rest (cons c s) =
    let rest = cons (lower c) (snake_rest s) in if is_upper c then concat "_" rest else rest

-- `Base.__tablename__`
unfoldable pub tablename : String → String
unfolding snake_rest
tablename empty = "s"
tablename (cons c s) = cons (lower c) (snake_rest s)

-- `"_".join(names)`
abbrev joined : List String → String
joined [] = ""
joined (n ∷ []) = n
joined (n ∷ m ∷ names) = concat n (concat "_" (joined (m ∷ names)))

-- `NAMING_CONVENTION["ix"]`
abbrev pub index_name : String → List String → String
index_name table columns = concat "ix_" (concat table (concat "_" (joined columns)))

-- `mapped_column(type, nullable=…)`, under the name of its attribute.
abbrev pub mapped_column : String → ColumnType → Bool → Column
mapped_column name type nullable = record {
  name = name;
  type = type;
  nullable = nullable;
  primary_key = false;
  foreign_key = none;
  server_default = none;
}

abbrev pub timestamp_columns : List Column
timestamp_columns =
    record (mapped_column "created_at" datetime_tz false) { server_default = some now }
    ∷ record (mapped_column "updated_at" datetime_tz false) { server_default = some now }
    ∷ []

abbrev pub id_columns : List Column
id_columns = record (mapped_column "id" uuid false) { primary_key = true } ∷ []

-- A model: its name and `__tablename__` (if it has its own), its columns with whether `index=True`
-- is given, and the unique constraints of `__table_args__`.
pub record Model : Type 0 where
  pub class_name : String
  pub own_tablename : Option String
  pub columns : List (Column × Bool)
  pub uniques : List UniqueConstraint

abbrev own : String → ColumnType → Bool → Column × Bool
own name type nullable = (mapped_column name type nullable, false)

-- `ForeignKey("table.id", ondelete="CASCADE")` with `index=True`.
abbrev own_foreign : String → String → Column × Bool
own_foreign name table = (
  record (mapped_column name uuid false) {
    foreign_key = some (record { table = table; column = "id"; ondelete = some "CASCADE" });
  },
  true,
)

abbrev pub advertiser_model : Model
advertiser_model = record {
  class_name = "Advertiser";
  own_tablename = none;
  columns =
      own "name" (string (some 255)) false
      ∷ own "external_ref" (string (some 255)) false
      ∷ own "meta_business_id" (string (some 64)) true
      ∷ own "meta_ad_account_id" (string (some 64)) true
      ∷ [];
  uniques = record { name = "uq_advertisers_external_ref"; columns = "external_ref" ∷ [] } ∷ [];
}

abbrev pub pixel_model : Model
pixel_model = record {
  class_name = "Pixel";
  own_tablename = none;
  columns =
      own_foreign "advertiser_id" "advertisers"
      ∷ own "meta_pixel_id" (string (some 64)) false
      ∷ own "name" (string (some 255)) false
      ∷ own "status" (string (some 32)) false
      ∷ [];
  uniques = record { name = "uq_pixels_meta_pixel_id"; columns = "meta_pixel_id" ∷ [] } ∷ [];
}

abbrev pub conversion_tag_model : Model
conversion_tag_model = record {
  class_name = "ConversionTag";
  own_tablename = none;
  columns =
      own_foreign "advertiser_id" "advertisers"
      ∷ own_foreign "pixel_id" "pixels"
      ∷ own "name" (string (some 255)) false
      ∷ own "event_type" (string (some 64)) false
      ∷ own "category" (string (some 64)) false
      ∷ own "value" (numeric 18 4) true
      ∷ own "currency" (string (some 3)) true
      ∷ own "rule" jsonb true
      ∷ own "payload" jsonb true
      ∷ own "meta_custom_conversion_id" (string (some 64)) true
      ∷ own "status" (string (some 32)) false
      ∷ [];
  uniques =
      record {
        name = "uq_conversion_tags_advertiser_id_name";
        columns = "advertiser_id" ∷ "name" ∷ [];
      }
      ∷ [];
}

abbrev pub oauth_token_model : Model
oauth_token_model = record {
  class_name = "OAuthToken";
  own_tablename = some "oauth_tokens";
  columns =
      own_foreign "advertiser_id" "advertisers"
      ∷ own "provider" (string (some 32)) false
      ∷ own "access_token_encrypted" (string none) false
      ∷ own "refresh_token_encrypted" (string none) true
      ∷ own "expires_at" datetime_tz false
      ∷ own "scopes" (string none) true
      ∷ [];
  uniques =
      record {
        name = "uq_oauth_tokens_advertiser_id_provider";
        columns = "advertiser_id" ∷ "provider" ∷ [];
      }
      ∷ [];
}

abbrev pub idempotency_record_model : Model
idempotency_record_model = record {
  class_name = "IdempotencyRecord";
  own_tablename = none;
  columns =
      own "endpoint" (string (some 128)) false
      ∷ own "key" (string (some 128)) false
      ∷ own "request_hash" (string (some 64)) false
      ∷ own "response_status" integer false
      ∷ own "response_body" jsonb false
      ∷ own "expires_at" datetime_tz false
      ∷ [];
  uniques =
      record { name = "uq_idempotency_records_endpoint_key"; columns = "endpoint" ∷ "key" ∷ [] }
      ∷ [];
}

abbrev pub model_table : Model → String
model_table m = elim m.own_tablename [ none ↦ tablename m.class_name | some name ↦ name ]

-- The table of a model: `UUIDPKMixin` and `TimestampMixin` stand beside its own columns.
unfoldable pub table_of : Model → TableDef
unfolding tablename
table_of m = record {
  name = model_table m;
  columns = id_columns ++ timestamp_columns ++ map (λ c. c.0) m.columns;
  uniques = m.uniques;
}

unfoldable pub indexes_of : Model → List IndexDef
unfolding tablename
indexes_of m =
    map
      (λ c. record {
        name = index_name (model_table m) (c.0.name ∷ []);
        table = model_table m;
        columns = c.0.name ∷ [];
      })
      (filter (λ c. c.1) m.columns)

-- The models that app/models registers.
abbrev pub models : List Model
models =
    advertiser_model ∷ conversion_tag_model ∷ idempotency_record_model ∷ oauth_token_model
    ∷ pixel_model ∷ []
