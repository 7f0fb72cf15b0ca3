-- ===== src/Api/SyncFailure.antt =====
-- What becomes of a failure of Meta while pixels are synced (app/services/pixel_sync_service.py,
-- app/api/errors.py).
use hub_meta_conversion_serv.Base.{◌≡◌, refl, none, some, find, ◌==◌, String}
use hub_meta_conversion_serv.Exec.{ok, err, ◌>>=◌, pure, or_raise}
use hub_meta_conversion_serv.Models.{Uuid, Advertiser}
use hub_meta_conversion_serv.Meta.Adapter.{Raised}
use hub_meta_conversion_serv.Errors.{adapter_error}
use hub_meta_conversion_serv.Security.{TokenCipher}
use hub_meta_conversion_serv.Env.{Env}
use hub_meta_conversion_serv.Session.{
  World, begin, rollback, close, with_session, scalar, call_meta,
}
use hub_meta_conversion_serv.Repositories.Advertiser as Advertisers
use hub_meta_conversion_serv.OAuth.{AccessToken, meta_provider, get_access_token}
use hub_meta_conversion_serv.PixelSync.{ad_account, sync_for_advertiser}
use hub_meta_conversion_serv.Api.{sync_pixels}
use hub_meta_conversion_serv.Api.Responses.{error_reply}

-- The advertiser and its ad account are there, the OAuth service gives a token, and the adapter
-- raises an exception when it lists the pixels. Then the sync ends with that exception as it is,
-- the committed database is the one from before the call of the adapter, and no exception handler
-- is registered for the exception.
pub sync_failure_has_no_reply :
    (env : Env) (c : TokenCipher) (a : Uuid) (w u : World env.Remote env.Json)
    (advertiser : Advertiser) (account : String) (token : AccessToken) (raised : Raised)
    → find (λ r. r.id == a) w.committed.advertisers ≡ some advertiser
    → ad_account advertiser ≡ some account
    → get_access_token env c a meta_provider (begin w) ≡ (ok token, u)
    → (env.adapter.list_pixels account token.value u.remote).0 ≡ err raised
    → ((with_session env (sync_pixels env c a) w).0 ≡ err (adapter_error raised))
      × ((with_session env (sync_pixels env c a) w).1.committed ≡ u.committed)
      × (error_reply (adapter_error raised) ≡ none)
unfolding with_session begin rollback close sync_pixels sync_for_advertiser Advertisers.get scalar
    call_meta ◌>>=◌ error_reply pure or_raise
sync_failure_has_no_reply env c a w u advertiser account token raised found has_account got
      refused =
    (
      rw
          (
            env.sql.scalar_finds Advertiser (λ r. r.id == a) w.committed.advertisers,
            found,
            has_account,
            got,
            refused,
          )
          refl,
      rw
          (
            env.sql.scalar_finds Advertiser (λ r. r.id == a) w.committed.advertisers,
            found,
            has_account,
            got,
            refused,
          )
          refl,
      refl,
    )
