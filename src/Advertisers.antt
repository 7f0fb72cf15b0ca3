-- ===== src/Advertisers.antt =====
-- Advertisers (app/services/advertiser_service.py).
pub mod Unique
pub mod ReadBack
use hub_meta_conversion_serv.Base.{ℕ}
use hub_meta_conversion_serv.Exec.{◌>>=◌, ◌>>◌, raise, or_raise, catch}
use hub_meta_conversion_serv.Models.{Uuid, Advertiser}
use hub_meta_conversion_serv.Schemas.{AdvertiserCreate}
use hub_meta_conversion_serv.Env.{Env}
use hub_meta_conversion_serv.Errors.{
  Exc, not_found, conflict, integrity_error, advertiser_exists, advertiser_missing,
}
use hub_meta_conversion_serv.Session.{App, roll_back}
use hub_meta_conversion_serv.Repositories.Advertiser as Repo

abbrev pub new_advertiser : AdvertiserCreate → Uuid → ℕ → Advertiser
new_advertiser payload id now = record {
  id = id;
  name = payload.name;
  external_ref = payload.external_ref;
  meta_business_id = payload.meta_business_id;
  meta_ad_account_id = payload.meta_ad_account_id;
  created_at = now;
  updated_at = now;
}

module _ (env : Env) where
  -- `except IntegrityError`; another exception goes on.
  unfoldable pub on_conflict : AdvertiserCreate → Exc → App env Advertiser
  on_conflict payload integrity_error =
      roll_back env >> raise (conflict (advertiser_exists payload.external_ref))
  on_conflict payload e = raise e

  unfoldable pub create : AdvertiserCreate → App env Advertiser
  create payload = catch (Repo.create env (new_advertiser payload)) (on_conflict payload)

  unfoldable pub get : Uuid → App env Advertiser
  get advertiser_id = do
    found ← Repo.get env advertiser_id
    or_raise found (not_found (advertiser_missing advertiser_id))
