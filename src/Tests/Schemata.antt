-- ===== src/Tests/Schemata.antt =====
-- The theorems on the migration, beside the table in which Alembic keeps the revision.
use mathlib.Core.Option.{bind}
use hub_meta_conversion_serv.Base.{◌≡◌, refl, true, false, some, [], ◌∷◌}
use hub_meta_conversion_serv.Ddl.{Catalog, string}
use hub_meta_conversion_serv.Models.{Advertiser, ConversionTag}
use hub_meta_conversion_serv.Migrations.{
  column, run, upgrade, downgrade, advertisers_table, pixels_table, conversion_tags_table,
  oauth_tokens_table, idempotency_records_table,
}
use hub_meta_conversion_serv.Migrations.Closed.{Closed}
use hub_meta_conversion_serv.Migrations.Frame.{performing, beside, NamesFree}
use hub_meta_conversion_serv.Metadata.{models}
use hub_meta_conversion_serv.Metadata.Agreement.{declares, schema_is_migrated, downgrade_restores}
use hub_meta_conversion_serv.Metadata.Constraints.{
  violates, keys_found, advertiser_row, pixel_row, tag_row, token_row, record_row,
  constraints_are_declared,
}
use hub_meta_conversion_serv.Tests.World.{shop, advertiser, pixel, Document}
use hub_meta_conversion_serv.Tests.World
use hub_meta_conversion_serv.Tests.Keys.{old_record}
use hub_meta_conversion_serv.Tests.Sessions.{done_tag}

abbrev versioned : Catalog
versioned = record {
  tables =
      record {
        name = "alembic_version";
        columns =
            record (column "version_num" (string (some 32)) false) { primary_key = true } ∷ [];
        uniques = [];
      }
      ∷ [];
  indexes = [];
}

versioned-Closed : Closed versioned
versioned-Closed = record { references = λ n r. cc; indexed = λ n r. cc }

versioned-NamesFree : NamesFree upgrade versioned
unfolding upgrade
versioned-NamesFree = refl

schema_is_migrated_example :
    (made : Catalog) × (run performing upgrade versioned ≡ some (beside versioned made))
    × (declares models made ≡ true)
schema_is_migrated_example = schema_is_migrated performing versioned versioned-NamesFree

downgrade_restores_example :
    bind (run performing upgrade versioned) (λ d. run performing downgrade d) ≡ some versioned
downgrade_restores_example =
    downgrade_restores performing versioned versioned-Closed versioned-NamesFree

abbrev same_shop : Advertiser
same_shop = record advertiser { id = 7; name = "Other" }

abbrev stray : ConversionTag
stray = record done_tag { pixel_id = 9 }

abbrev renamed : ConversionTag
renamed = record stray { name = "new" }

constraints_are_declared_example :
    (violates advertisers_table (advertiser_row advertiser) (advertiser_row same_shop) ≡ true)
    × (keys_found shop advertisers_table (advertiser_row advertiser) ≡ true)
    × (violates pixels_table (pixel_row pixel) (pixel_row pixel) ≡ true)
    × (keys_found shop pixels_table (pixel_row pixel) ≡ true)
    × (violates conversion_tags_table (tag_row stray) (tag_row renamed) ≡ false)
    × (keys_found shop conversion_tags_table (tag_row stray) ≡ false)
    × (violates oauth_tokens_table (token_row World.token_row) (token_row World.token_row) ≡ true)
    × (keys_found shop oauth_tokens_table (token_row World.token_row) ≡ true)
    × (violates idempotency_records_table (record_row old_record) (record_row old_record) ≡ true)
    × (keys_found shop idempotency_records_table (record_row old_record) ≡ true)
constraints_are_declared_example =
    constraints_are_declared shop advertiser same_shop pixel pixel stray renamed World.token_row
      World.token_row old_record old_record
