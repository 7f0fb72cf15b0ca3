-- ===== src/Errors.antt =====
-- The exceptions of app/services/exceptions.py and app/services/idempotency.py, with the arguments
-- of their messages, and those of the libraries that the services meet.
use hub_meta_conversion_serv.Base.{ℕ, String}
use hub_meta_conversion_serv.Models.{Uuid}
use hub_meta_conversion_serv.Meta.Adapter.{MetaError, Raised}

-- A constructor for each f-string.
pub data Message : Type 0 where
  advertiser_exists : String → Message
  advertiser_missing : Uuid → Message
  no_ad_account : Uuid → Message
  pixel_missing : Uuid → Uuid → Message
  tag_exists : String → Message
  no_token : String → Uuid → Message
  token_expired : String → Uuid → Message
  key_reused : Message
  meta_failed : MetaError → Message

pub data Exc : Type 0 where
  not_found conflict idempotency_conflict upstream : Message → Exc
  -- sqlalchemy.exc.IntegrityError
  integrity_error : Exc
  -- a `MetaError`, or another exception, that nothing has caught
  adapter_error : Raised → Exc
  value_error assertion_error validation_error runtime_error : Exc
  -- sqlalchemy.exc.ArgumentError
  argument_error : Exc
  attribute_error : Exc
  -- fastapi.HTTPException
  http_exception : ℕ → Exc → Exc
