-- ===== src/Models/Tables.antt =====
-- The tables as the ORM sees them: where the rows are kept, which rows a row refers to, and which
-- rows it cannot stand beside (`__table_args__` and the foreign keys of app/models). `held` is a row
-- as its columns keep it, from what a column of `Numeric(precision, scale)` keeps of a number.
use mathlib.Core.Option
use hub_meta_conversion_serv.Meta.Schemas.{Decimal}
use hub_meta_conversion_serv.Base.{ℕ, Bool, true, List, ◌==◌, str_eq, ◌&&◌, any}
use hub_meta_conversion_serv.Models.{
  Uuid, Advertiser, Pixel, ConversionTag, OAuthToken, IdempotencyRecord, Db,
}

pub record Table (J A : Type 0) : Type 0 where
  pub rows : Db J → List A
  pub store : List A → Db J → Db J
  pub refers : Db J → A → Bool
  pub clash : A → A → Bool
  pub held : (ℕ → ℕ → Decimal → Decimal) → A → A

module _ {J : Type 0} where
  abbrev pub has_advertiser : Db J → Uuid → Bool
  has_advertiser db i = any (λ r. r.id == i) db.advertisers

  abbrev pub has_pixel : Db J → Uuid → Bool
  has_pixel db i = any (λ r. r.id == i) db.pixels

abbrev pub advertisers : {J : Type 0} → Table J Advertiser
advertisers = record {
  rows = λ db. db.advertisers;
  store = λ rows db. record db { advertisers = rows };
  refers = λ db r. true;
  clash = λ r s. str_eq r.external_ref s.external_ref;
  held = λ numeric r. r;
}

abbrev pub pixels : {J : Type 0} → Table J Pixel
pixels = record {
  rows = λ db. db.pixels;
  store = λ rows db. record db { pixels = rows };
  refers = λ db r. has_advertiser db r.advertiser_id;
  clash = λ r s. str_eq r.meta_pixel_id s.meta_pixel_id;
  held = λ numeric r. r;
}

-- The row of a tag: the column of its value is `Numeric(18, 4)`.
abbrev pub held_tag : (ℕ → ℕ → Decimal → Decimal) → ConversionTag → ConversionTag
held_tag numeric tag = record tag { value = Option.map (numeric 18 4) tag.value }

abbrev pub conversion_tags : {J : Type 0} → Table J ConversionTag
conversion_tags = record {
  rows = λ db. db.conversion_tags;
  store = λ rows db. record db { conversion_tags = rows };
  refers = λ db r. has_advertiser db r.advertiser_id && has_pixel db r.pixel_id;
  clash = λ r s. r.advertiser_id == s.advertiser_id && str_eq r.name s.name;
  held = held_tag;
}

abbrev pub oauth_tokens : {J : Type 0} → Table J OAuthToken
oauth_tokens = record {
  rows = λ db. db.oauth_tokens;
  store = λ rows db. record db { oauth_tokens = rows };
  refers = λ db r. has_advertiser db r.advertiser_id;
  clash = λ r s. r.advertiser_id == s.advertiser_id && str_eq r.provider s.provider;
  held = λ numeric r. r;
}

abbrev pub idempotency_records : {J : Type 0} → Table J (IdempotencyRecord J)
idempotency_records = record {
  rows = λ db. db.idempotency_records;
  store = λ rows db. record db { idempotency_records = rows };
  refers = λ db r. true;
  clash = λ r s. str_eq r.endpoint s.endpoint && str_eq r.key s.key;
  held = λ numeric r. r;
}
