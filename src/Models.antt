-- ===== src/Models.antt =====
-- The ORM models (app/models): a record for each row, the tables, and their constraints.
pub mod Tables
use hub_meta_conversion_serv.Base.{ℕ, Bool, String, Option, List}
use hub_meta_conversion_serv.Meta.Schemas.{Decimal, Rule, CustomConversionCreateInput}

-- UUIDs are only compared.
abbrev pub Uuid : Type 0
Uuid = ℕ

-- Microseconds since the epoch. `aware` is whether `tzinfo` is set; all that is aware is in UTC.
pub record DateTime : Type 0 where
  pub micros : ℕ
  pub aware : Bool

-- The bytes of an ASCII text.
abbrev pub Bytes : Type 0
Bytes = List ℕ

pub record Advertiser : Type 0 where
  pub id : Uuid
  pub name : String
  pub external_ref : String
  pub meta_business_id : Option String
  pub meta_ad_account_id : Option String
  pub created_at : ℕ
  pub updated_at : ℕ

pub record Pixel : Type 0 where
  pub id : Uuid
  pub advertiser_id : Uuid
  pub meta_pixel_id : String
  pub name : String
  pub status : String
  pub created_at : ℕ
  pub updated_at : ℕ

-- The three texts that the program writes into `conversion_tags.status`.
pub data TagStatus : Type 0 where
  pending active failed : TagStatus

-- `payload` keeps the record whose JSON dump the column holds.
pub record ConversionTag : Type 0 where
  pub id : Uuid
  pub advertiser_id : Uuid
  pub pixel_id : Uuid
  pub name : String
  pub event_type : String
  pub category : String
  pub value : Option Decimal
  pub currency : Option String
  pub rule : Option Rule
  pub payload : Option CustomConversionCreateInput
  pub meta_custom_conversion_id : Option String
  pub status : TagStatus
  pub created_at : ℕ
  pub updated_at : ℕ

pub record OAuthToken : Type 0 where
  pub id : Uuid
  pub advertiser_id : Uuid
  pub provider : String
  pub access_token_encrypted : Bytes
  pub refresh_token_encrypted : Option Bytes
  pub expires_at : DateTime
  pub scopes : Option String
  pub created_at : ℕ
  pub updated_at : ℕ

-- `J` is the type of JSON documents.
pub record IdempotencyRecord (J : Type 0) : Type 0 where
  pub id : Uuid
  pub endpoint : String
  pub key : String
  pub request_hash : String
  pub response_status : ℕ
  pub response_body : J
  pub expires_at : DateTime
  pub created_at : ℕ
  pub updated_at : ℕ

pub record Db (J : Type 0) : Type 0 where
  pub advertisers : List Advertiser
  pub pixels : List Pixel
  pub conversion_tags : List ConversionTag
  pub oauth_tokens : List OAuthToken
  pub idempotency_records : List (IdempotencyRecord J)
