-- ===== src/Metadata/Constraints.antt =====
-- The constraints of the tables in Models/Tables are those that the migration creates
-- (alembic/versions).
use hub_meta_conversion_serv.Base.{
  ◌≡◌, arith, Bool, true, false, ◌&&◌, String, str_eq, Option, none, some, List, [], ◌∷◌, any, all,
  ◌==◌, if◌then◌else◌,
}
use hub_meta_conversion_serv.Models.{
  Uuid, Advertiser, Pixel, ConversionTag, OAuthToken, IdempotencyRecord, Db,
}
use hub_meta_conversion_serv.Models.Tables
use hub_meta_conversion_serv.Models.Tables.{Table, has_advertiser, has_pixel}
use hub_meta_conversion_serv.Ddl.{ForeignKey, TableDef}
use hub_meta_conversion_serv.Migrations.{
  advertisers_table, pixels_table, conversion_tags_table, oauth_tokens_table,
  idempotency_records_table,
}

-- What a row has in a column that is compared. Two NULLs are not equal.
pub data Cell : Type 0 where
  id : Uuid → Cell
  text : String → Cell
  null : Cell

abbrev pub equal : Cell → Cell → Bool
equal (id i) (id j) = i == j
equal (text s) (text t) = str_eq s t
equal _ _ = false

abbrev pub nullable_text : Option String → Cell
nullable_text none = null
nullable_text (some s) = text s

abbrev pub lookup : List (String × Cell) → String → Cell
lookup [] name = null
lookup (entry ∷ row) name = if str_eq entry.0 name then entry.1 else lookup row name

abbrev pub Row : Type 0
Row = List (String × Cell)

abbrev pub advertiser_row : Advertiser → Row
advertiser_row r =
    ("id", id r.id)
    ∷ ("name", text r.name)
    ∷ ("external_ref", text r.external_ref)
    ∷ ("meta_business_id", nullable_text r.meta_business_id)
    ∷ ("meta_ad_account_id", nullable_text r.meta_ad_account_id)
    ∷ []

abbrev pub pixel_row : Pixel → Row
pixel_row r =
    ("id", id r.id)
    ∷ ("advertiser_id", id r.advertiser_id)
    ∷ ("meta_pixel_id", text r.meta_pixel_id)
    ∷ ("name", text r.name)
    ∷ ("status", text r.status)
    ∷ []

abbrev pub tag_row : ConversionTag → Row
tag_row r =
    ("id", id r.id)
    ∷ ("advertiser_id", id r.advertiser_id)
    ∷ ("pixel_id", id r.pixel_id)
    ∷ ("name", text r.name)
    ∷ ("event_type", text r.event_type)
    ∷ ("category", text r.category)
    ∷ ("currency", nullable_text r.currency)
    ∷ ("meta_custom_conversion_id", nullable_text r.meta_custom_conversion_id)
    ∷ []

abbrev pub token_row : OAuthToken → Row
token_row r =
    ("id", id r.id)
    ∷ ("advertiser_id", id r.advertiser_id)
    ∷ ("provider", text r.provider)
    ∷ ("scopes", nullable_text r.scopes)
    ∷ []

abbrev pub record_row : {J : Type 0} → IdempotencyRecord J → Row
record_row r =
    ("id", id r.id)
    ∷ ("endpoint", text r.endpoint)
    ∷ ("key", text r.key)
    ∷ ("request_hash", text r.request_hash)
    ∷ []

-- Two rows that a unique constraint of the table keeps apart.
unfoldable pub violates : TableDef → Row → Row → Bool
violates t r s = any (λ u. all (λ name. equal (lookup r name) (lookup s name)) u.columns) t.uniques

abbrev pub found : {J : Type 0} → Db J → ForeignKey → Cell → Bool
found db k (id i) =
    if str_eq k.table "advertisers"
    then has_advertiser db i
    else str_eq k.table "pixels" && has_pixel db i
found db k (text s) = false
found db k null = true

-- The rows that the foreign keys of the table ask for are there.
unfoldable pub keys_found : {J : Type 0} → Db J → TableDef → Row → Bool
keys_found db t r =
    all (λ c. elim c.foreign_key [ none ↦ true | some k ↦ found db k (lookup r c.name) ]) t.columns

-- For each of the five tables, two rows clash for the ORM exactly if they violate a unique
-- constraint that the migration creates on the table, and the rows that a row refers to are there
-- exactly if the foreign keys that the migration creates find them.
pub constraints_are_declared :
    {J : Type 0} (db : Db J) (a a' : Advertiser) (p p' : Pixel) (t t' : ConversionTag)
    (o o' : OAuthToken) (i i' : IdempotencyRecord J)
    → (violates advertisers_table (advertiser_row a) (advertiser_row a')
        ≡ (Tables.advertisers {J = J}).clash a a')
      × (keys_found db advertisers_table (advertiser_row a) ≡ Tables.advertisers.refers db a)
      × (violates pixels_table (pixel_row p) (pixel_row p') ≡ (Tables.pixels {J = J}).clash p p')
      × (keys_found db pixels_table (pixel_row p) ≡ Tables.pixels.refers db p)
      × (violates conversion_tags_table (tag_row t) (tag_row t')
          ≡ (Tables.conversion_tags {J = J}).clash t t')
      × (keys_found db conversion_tags_table (tag_row t) ≡ Tables.conversion_tags.refers db t)
      × (violates oauth_tokens_table (token_row o) (token_row o')
          ≡ (Tables.oauth_tokens {J = J}).clash o o')
      × (keys_found db oauth_tokens_table (token_row o) ≡ Tables.oauth_tokens.refers db o)
      × (violates idempotency_records_table (record_row i) (record_row i')
          ≡ Tables.idempotency_records.clash i i')
      × (keys_found db idempotency_records_table (record_row i)
          ≡ Tables.idempotency_records.refers db i)
unfolding violates keys_found
constraints_are_declared {J} db a a' p p' t t' o o' i i' = (
  ground arith,
  ground arith,
  ground arith,
  ground arith,
  ground arith,
  ground arith,
  ground arith,
  ground arith,
  ground arith,
  ground arith,
)
