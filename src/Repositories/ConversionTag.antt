-- ===== src/Repositories/ConversionTag.antt =====
-- app/repositories/conversion_tag.py
use hub_meta_conversion_serv.Base.{ℕ, String, Option, List, ◌==◌, str_eq, ◌&&◌, leb}
use hub_meta_conversion_serv.Models.{Uuid, ConversionTag}
use hub_meta_conversion_serv.Models.Tables
use hub_meta_conversion_serv.Env.{Env}
use hub_meta_conversion_serv.Session.{App, scalar, scalars, flush_add}

module _ (env : Env) where
  -- `make` is the `ConversionTag(…)` of the caller, which gets its id and timestamps at the flush.
  unfoldable pub create : (Uuid → ℕ → ConversionTag) → App env ConversionTag
  create make = flush_add env Tables.conversion_tags make

  unfoldable pub get : Uuid → App env (Option ConversionTag)
  get tag_id = scalar env Tables.conversion_tags (λ r. r.id == tag_id)

  unfoldable pub get_by_advertiser_and_name : Uuid → String → App env (Option ConversionTag)
  get_by_advertiser_and_name advertiser_id name =
      scalar env Tables.conversion_tags
        (λ r. r.advertiser_id == advertiser_id && str_eq r.name name)

  -- Newest first.
  unfoldable pub list_for_advertiser : Uuid → App env (List ConversionTag)
  list_for_advertiser advertiser_id =
      scalars env Tables.conversion_tags (λ r. r.advertiser_id == advertiser_id)
        (λ r s. leb s.created_at r.created_at)
