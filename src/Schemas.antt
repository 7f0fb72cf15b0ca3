-- ===== src/Schemas.antt =====
-- The request and response models (app/schemas).
pub mod Accepted
use Prim.Native.String.{count}
use hub_meta_conversion_serv.Base.{
  ℕ, Bool, true, false, not, ◌&&◌, ◌||◌, ◌==◌, leb, str_eq, String, Option, none, some, List, [],
  ◌∷◌, any,
}
use hub_meta_conversion_serv.Models.{Uuid, Advertiser, Pixel, ConversionTag, TagStatus}
use hub_meta_conversion_serv.Meta.Schemas.{Decimal, Rule}

pub record AdvertiserCreate : Type 0 where
  pub name : String
  pub external_ref : String
  pub meta_business_id : Option String
  pub meta_ad_account_id : Option String

-- `Field(min_length=…, max_length=…)`, in characters.
abbrev pub length_within : ℕ → ℕ → String → Bool
length_within low high s = leb low (count s) && leb (count s) high

abbrev pub if_present : {A : Type 0} → (A → Bool) → Option A → Bool
if_present p none = true
if_present p (some a) = p a

unfoldable pub advertiser_accepted : AdvertiserCreate → Bool
advertiser_accepted p =
    length_within 1 255 p.name
    && (length_within 1 255 p.external_ref
        && (if_present (length_within 0 64) p.meta_business_id
            && if_present (length_within 0 64) p.meta_ad_account_id))

abbrev pub event_types : List String
event_types =
    "Purchase" ∷ "Lead" ∷ "CompleteRegistration" ∷ "AddToCart" ∷ "InitiateCheckout" ∷ "Subscribe"
    ∷ "ViewContent" ∷ "Custom" ∷ []

abbrev pub categories : List String
categories =
    "purchase" ∷ "lead" ∷ "registration" ∷ "add_to_cart" ∷ "checkout" ∷ "subscribe" ∷ "view_content"
    ∷ "other" ∷ []

abbrev pub operators : List String
operators = "eq" ∷ "neq" ∷ "contains" ∷ "i_contains" ∷ []

-- The fields as they were sent, with the defaults filled in.
pub record ConversionTagCreate : Type 0 where
  pub pixel_id : Uuid
  pub name : String
  pub event_type : String
  pub category : String
  pub value : Option Decimal
  pub currency : Option String
  pub rule : Option Rule

unfoldable pub rule_accepted : Rule → Bool
rule_accepted r = leb 1 (count r.field) && any (str_eq r.operator) operators

-- `Field(ge=0)`
unfoldable pub decimal_nonneg : Decimal → Bool
decimal_nonneg d = not d.negative || d.coefficient == 0

abbrev pub is_none : {A : Type 0} → Option A → Bool
is_none none = true
is_none (some a) = false

abbrev pub same : Bool → Bool → Bool
same true b = b
same false b = not b

-- `_value_requires_currency`, which runs on a model whose fields have passed.
unfoldable pub value_requires_currency : ConversionTagCreate → Bool
value_requires_currency p = same (is_none p.value) (is_none p.currency)

-- Whether pydantic accepts the body; the framework answers 422 to one that it refuses.
unfoldable pub tag_accepted : ConversionTagCreate → Bool
unfolding rule_accepted decimal_nonneg value_requires_currency
tag_accepted p =
    length_within 1 255 p.name
    && (any (str_eq p.event_type) event_types
        && (any (str_eq p.category) categories
            && (if_present decimal_nonneg p.value
                && (if_present (length_within 3 3) p.currency
                    && (if_present rule_accepted p.rule && value_requires_currency p)))))

pub record AdvertiserOut : Type 0 where
  pub id : Uuid
  pub name : String
  pub external_ref : String
  pub meta_business_id : Option String
  pub meta_ad_account_id : Option String
  pub created_at : ℕ
  pub updated_at : ℕ

-- `AdvertiserOut.model_validate(advertiser)`
unfoldable pub advertiser_out : Advertiser → AdvertiserOut
advertiser_out a = record {
  id = a.id;
  name = a.name;
  external_ref = a.external_ref;
  meta_business_id = a.meta_business_id;
  meta_ad_account_id = a.meta_ad_account_id;
  created_at = a.created_at;
  updated_at = a.updated_at;
}

pub record PixelOut : Type 0 where
  pub id : Uuid
  pub advertiser_id : Uuid
  pub meta_pixel_id : String
  pub name : String
  pub status : String
  pub created_at : ℕ
  pub updated_at : ℕ

unfoldable pub pixel_out : Pixel → PixelOut
pixel_out p = record {
  id = p.id;
  advertiser_id = p.advertiser_id;
  meta_pixel_id = p.meta_pixel_id;
  name = p.name;
  status = p.status;
  created_at = p.created_at;
  updated_at = p.updated_at;
}

pub record PixelSyncResult : Type 0 where
  pub advertiser_id : Uuid
  pub pixels_fetched : ℕ
  pub pixels_created : ℕ
  pub pixels_updated : ℕ
  pub pixels : List PixelOut

pub record ConversionTagOut : Type 0 where
  pub id : Uuid
  pub advertiser_id : Uuid
  pub pixel_id : Uuid
  pub name : String
  pub event_type : String
  pub category : String
  pub value : Option Decimal
  pub currency : Option String
  pub rule : Option Rule
  pub meta_custom_conversion_id : Option String
  pub status : TagStatus
  pub created_at : ℕ
  pub updated_at : ℕ

-- `ConversionTagOut.model_validate(tag)`
unfoldable pub conversion_tag_out : ConversionTag → ConversionTagOut
conversion_tag_out t = record {
  id = t.id;
  advertiser_id = t.advertiser_id;
  pixel_id = t.pixel_id;
  name = t.name;
  event_type = t.event_type;
  category = t.category;
  value = t.value;
  currency = t.currency;
  rule = t.rule;
  meta_custom_conversion_id = t.meta_custom_conversion_id;
  status = t.status;
  created_at = t.created_at;
  updated_at = t.updated_at;
}
