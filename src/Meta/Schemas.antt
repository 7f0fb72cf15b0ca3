-- ===== src/Meta/Schemas.antt =====
-- The wire models of app/integrations/meta/schemas.py, and the decimals they carry.
use Prim.Native.Nat.{ℕ}
use hub_meta_conversion_serv.Base.{Bool, String, Option}

-- A finite `decimal.Decimal`: sign, coefficient and exponent. The exponent is `places` digits to
-- the right of the point, less `zeros` to the left of it.
pub record Decimal : Type 0 where
  pub negative : Bool
  pub coefficient : ℕ
  pub places : ℕ
  pub zeros : ℕ

pub record MetaPixel : Type 0 where
  pub id : String
  pub name : String
  pub status : String

-- `CustomConversionRuleInput`, `ConversionTagRule`, and the dict that `model_dump` makes of either.
pub record Rule : Type 0 where
  pub field : String
  pub operator : String
  pub value : String

pub record CustomConversionCreateInput : Type 0 where
  pub pixel_id : String
  pub name : String
  pub event_type : String
  pub category : String
  pub value : Option Decimal
  pub currency : Option String
  pub rule : Option Rule

pub record CustomConversion : Type 0 where
  pub id : String
  pub pixel_id : String
  pub name : String
  pub event_type : String
  pub category : String
  pub value : Option Decimal
  pub currency : Option String
  pub rule : Option Rule
