-- ===== src/ConversionTags.antt =====
-- Conversion tags (app/services/conversion_tag_service.py).
pub mod Stored
pub mod Settled
pub mod Completion
pub mod Outcome
pub mod Resumed
pub mod Guards
use hub_meta_conversion_serv.Base.{
  ℕ, ◌==◌, Bool, true, false, String, Option, none, some, List, [], ◌∷◌, if◌then◌else◌,
}
use hub_meta_conversion_serv.Exec.{◌>>=◌, ◌>>◌, pure, raise, gets, or_raise, catch}
use hub_meta_conversion_serv.Models.{
  Uuid, Advertiser, Pixel, ConversionTag, pending, active, failed,
}
use hub_meta_conversion_serv.Models.Tables
use hub_meta_conversion_serv.Schemas.{ConversionTagCreate}
use hub_meta_conversion_serv.Meta.Schemas.{CustomConversion, CustomConversionCreateInput}
use hub_meta_conversion_serv.Meta.Adapter.{meta}
use hub_meta_conversion_serv.Env.{Env}
use hub_meta_conversion_serv.Errors.{
  Exc, not_found, conflict, upstream, adapter_error, advertiser_missing, no_ad_account,
  pixel_missing, tag_exists, meta_failed,
}
use hub_meta_conversion_serv.Security.{TokenCipher}
use hub_meta_conversion_serv.Session.{App, scalar, flush_set, call_meta, roll_back}
use hub_meta_conversion_serv.OAuth.{meta_provider, get_access_token}
use hub_meta_conversion_serv.PixelSync.{ad_account}
use hub_meta_conversion_serv.Repositories.Advertiser as Advertisers
use hub_meta_conversion_serv.Repositories.ConversionTag as Tags

-- `pixel is None or pixel.advertiser_id != advertiser_id`
unfoldable pub owned_pixel : Uuid → Option Pixel → Option Pixel
owned_pixel advertiser_id none = none
owned_pixel advertiser_id (some pixel) =
    if pixel.advertiser_id == advertiser_id then some pixel else none

-- `ConversionTag(…, status="PENDING")`
abbrev pub pending_tag : Uuid → Uuid → ConversionTagCreate → Uuid → ℕ → ConversionTag
pending_tag advertiser_id pixel_id payload id now = record {
  id = id;
  advertiser_id = advertiser_id;
  pixel_id = pixel_id;
  name = payload.name;
  event_type = payload.event_type;
  category = payload.category;
  value = payload.value;
  currency = payload.currency;
  rule = payload.rule;
  payload = none;
  meta_custom_conversion_id = none;
  status = pending;
  created_at = now;
  updated_at = now;
}

abbrev pub meta_input : Pixel → ConversionTagCreate → CustomConversionCreateInput
meta_input pixel payload = record {
  pixel_id = pixel.meta_pixel_id;
  name = payload.name;
  event_type = payload.event_type;
  category = payload.category;
  value = payload.value;
  currency = payload.currency;
  rule = payload.rule;
}

-- The assignments after Meta has refused, and after it has answered.
abbrev pub marked_failed : CustomConversionCreateInput → ℕ → ConversionTag → ConversionTag
marked_failed input now tag = record tag { status = failed; payload = some input; updated_at = now }

abbrev pub marked_active : String → CustomConversionCreateInput → ℕ → ConversionTag → ConversionTag
marked_active conversion_id input now tag = record tag {
  meta_custom_conversion_id = some conversion_id;
  status = active;
  payload = some input;
  updated_at = now;
}

module _ (env : Env) where
  -- `except MetaError`; another exception goes on.
  unfoldable pub on_meta_error :
      ConversionTag → CustomConversionCreateInput → Exc → App env CustomConversion
  on_meta_error tag input (adapter_error (meta e)) =
      flush_set env Tables.conversion_tags (λ r. r.id == tag.id) (marked_failed input)
      >> raise (upstream (meta_failed e))
  on_meta_error tag input e = raise e

  -- The second half of `create`, from the token on, for a tag that is not active.
  unfoldable pub submit :
      TokenCipher
      → Uuid
      → String
      → Pixel
      → ConversionTagCreate
      → ConversionTag
      → App env ConversionTag
  submit cipher advertiser_id account pixel payload tag = do
    token ← get_access_token env cipher advertiser_id meta_provider
    let input = meta_input pixel payload
    created ←
        catch (call_meta env (env.adapter.create_custom_conversion account token.value input))
          (on_meta_error tag input)
    flush_set env Tables.conversion_tags (λ r. r.id == tag.id) (marked_active created.id input)
    written ← gets (λ w. w.started)
    pure (marked_active created.id input written tag)

  -- `except Exception` around the insert.
  unfoldable pub on_insert_error : String → Exc → App env ConversionTag
  on_insert_error name e = roll_back env >> raise (conflict (tag_exists name))

  -- The branches on the tag of that name.
  unfoldable pub create_or_resume :
      TokenCipher
      → Uuid
      → String
      → Pixel
      → ConversionTagCreate
      → Option ConversionTag
      → App env ConversionTag
  create_or_resume cipher advertiser_id account pixel payload none = do
    tag ←
        catch (Tags.create env (pending_tag advertiser_id pixel.id payload))
          (on_insert_error payload.name)
    submit cipher advertiser_id account pixel payload tag
  create_or_resume cipher advertiser_id account pixel payload (some existing) =
      elim existing.status [
        | active ↦ pure existing
        | _ ↦ submit cipher advertiser_id account pixel payload existing
      ]

  unfoldable pub create : TokenCipher → Uuid → ConversionTagCreate → App env ConversionTag
  create cipher advertiser_id payload = do
    found ← Advertisers.get env advertiser_id
    advertiser ← or_raise found (not_found (advertiser_missing advertiser_id))
    account ← or_raise (ad_account advertiser) (upstream (no_ad_account advertiser_id))
    row ← scalar env Tables.pixels (λ r. r.id == payload.pixel_id)
    pixel ←
        or_raise (owned_pixel advertiser_id row)
          (not_found (pixel_missing payload.pixel_id advertiser_id))
    existing ← Tags.get_by_advertiser_and_name env advertiser_id payload.name
    create_or_resume cipher advertiser_id account pixel payload existing

  unfoldable pub list_for_advertiser : Uuid → App env (List ConversionTag)
  list_for_advertiser advertiser_id = do
    found ← Advertisers.get env advertiser_id
    advertiser ← or_raise found (not_found (advertiser_missing advertiser_id))
    Tags.list_for_advertiser env advertiser_id
