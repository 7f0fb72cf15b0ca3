-- ===== src/Meta/Adapter.antt =====
-- The adapter protocol and its errors (app/integrations/meta/adapter.py).
use hub_meta_conversion_serv.Base.{ℕ, String, Option, List}
use hub_meta_conversion_serv.Exec.{Exec}
use hub_meta_conversion_serv.Meta.Schemas.{MetaPixel, CustomConversion, CustomConversionCreateInput}

-- `MetaError` and its subclasses; `retry_after_seconds` is in milliseconds.
pub data MetaError : Type 0 where
  meta_error : String → MetaError
  auth_error : String → MetaError
  rate_limited : String → Option ℕ → MetaError
  not_found : String → MetaError

-- What a call of an adapter can raise: a `MetaError`, an `httpx.TransportError`, or something else.
pub data Raised : Type 0 where
  meta : MetaError → Raised
  transport : String → Raised
  other : String → Raised

-- `R` is the state of Meta and of the adapter, which no database transaction covers.
pub record MetaAdapter (R : Type 0) : Type 0 where
  pub list_pixels : String → String → Exec R Raised (List MetaPixel)
  pub create_custom_conversion :
      String → String → CustomConversionCreateInput → Exec R Raised CustomConversion
