-- ===== src/PixelSync.antt =====
-- Pixel sync (app/services/pixel_sync_service.py).
pub mod Resync
pub mod Keys
pub mod Copies
use hub_meta_conversion_serv.Base.{
  ℕ, ◌+◌, Bool, true, false, String, Option, none, some, List, [], ◌∷◌, str_eq, if◌then◌else◌,
}
use hub_meta_conversion_serv.Exec.{◌>>=◌, pure, or_raise}
use hub_meta_conversion_serv.Models.{Uuid, Advertiser, Pixel}
use hub_meta_conversion_serv.Meta.Schemas.{MetaPixel}
use hub_meta_conversion_serv.Env.{Env}
use hub_meta_conversion_serv.Errors.{not_found, upstream, advertiser_missing, no_ad_account}
use hub_meta_conversion_serv.Security.{TokenCipher}
use hub_meta_conversion_serv.Session.{App, call_meta}
use hub_meta_conversion_serv.OAuth.{meta_provider, get_access_token}
use hub_meta_conversion_serv.Repositories.Advertiser as Advertisers
use hub_meta_conversion_serv.Repositories.Pixel as Pixels

-- `if not advertiser.meta_ad_account_id`: a text is false if it is empty.
unfoldable pub ad_account : Advertiser → Option String
ad_account a = elim a.meta_ad_account_id [
  | none ↦ none
  | some account ↦ if str_eq account "" then none else some account
]

-- The counters `created` and `updated`.
abbrev pub counted : Bool → ℕ × ℕ → ℕ × ℕ
counted true (created, updated) = (created + 1, updated)
counted false (created, updated) = (created, updated + 1)

module _ (env : Env) where
  -- The loop over the fetched pixels.
  unfoldable pub upsert_all : Uuid → List MetaPixel → ℕ × ℕ → App env (ℕ × ℕ)
  upsert_all advertiser_id [] counts = pure counts
  upsert_all advertiser_id (p ∷ fetched) counts = do
    was_created ← Pixels.upsert_from_meta env advertiser_id p.id p.name p.status
    upsert_all advertiser_id fetched (counted was_created counts)

  unfoldable pub sync_for_advertiser : TokenCipher → Uuid → App env (List Pixel × ℕ × ℕ)
  sync_for_advertiser cipher advertiser_id = do
    found ← Advertisers.get env advertiser_id
    advertiser ← or_raise found (not_found (advertiser_missing advertiser_id))
    account ← or_raise (ad_account advertiser) (upstream (no_ad_account advertiser_id))
    token ← get_access_token env cipher advertiser_id meta_provider
    fetched ← call_meta env (env.adapter.list_pixels account token.value)
    counts ← upsert_all advertiser.id fetched (0, 0)
    pixels ← Pixels.list_for_advertiser env env.name_before advertiser_id
    pure (pixels, counts.0, counts.1)
