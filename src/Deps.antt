-- ===== src/Deps.antt =====
-- How a request gets its session, its settings, the adapter and the services
-- (app/api/deps.py, app/db/session.py, `get_session`).
pub mod Answers
pub mod Ownership
pub mod Keyless
use hub_meta_conversion_serv.Base.{String, Option, none, some, List, [], ◌∷◌}
use hub_meta_conversion_serv.Exec.{Result, ok, err, Exec, continue, ◌>>=◌, ◌>>◌, pure, or_raise}
use hub_meta_conversion_serv.Errors.{Exc, runtime_error, value_error}
use hub_meta_conversion_serv.Env.{Env}
use hub_meta_conversion_serv.Session.{World, App, begin, commit, rollback}
use hub_meta_conversion_serv.Security.{TokenCipher, token_cipher}
use hub_meta_conversion_serv.Meta.Adapter.{MetaAdapter}
use hub_meta_conversion_serv.OAuth.{store_initial_token}
use hub_meta_conversion_serv.Config.{Settings}
use hub_meta_conversion_serv.Process.{
  Process, Platform, SessionFactory, get_settings, ensure_factory, open_session, close_session,
}
use hub_meta_conversion_serv.Requests.{Request}
use hub_meta_conversion_serv.Requests.{
  create_advertiser, get_advertiser, list_pixels, list_conversion_tags, sync_pixels,
  create_conversion_tag, store_token,
}
use hub_meta_conversion_serv.Api

-- The process, and the world of its one request at a time.
pub record Server (R J : Type 0) : Type 0 where
  pub process : Process
  pub world : World R J

module _ (platform : Platform) (env : Env) where
  abbrev pub Handler : Type 0 → Type 0
  Handler A = Exec (Server env.Remote env.Json) Exc A

  unfoldable pub on_process : {A : Type 0} → Exec Process Exc A → Handler A
  on_process m s = let (r, p) = m s.process in (r, record s { process = p })

  unfoldable pub on_world : {A : Type 0} → App env A → Handler A
  on_world m s = let (r, w) = m s.world in (r, record s { world = w })

  -- The end of `get_session`: commit, or roll back and raise again, and close either way.
  unfoldable pub end_session :
      {A : Type 0}
      → Result Exc A × Server env.Remote env.Json
      → Result Exc A × Server env.Remote env.Json
  end_session (ok a, s) =
      (ok a, record s { process = close_session s.process; world = commit s.world })
  end_session (err e, s) =
      (err e, record s { process = close_session s.process; world = rollback s.world })

  -- What stands between the `yield` of `get_session`, under a session of the factory.
  unfoldable pub in_session : {A : Type 0} → Handler A → SessionFactory → Handler A
  unfolding end_session
  in_session body factory s =
      end_session
        (body (record s { process = open_session factory s.process; world = begin s.world }))

  unfoldable pub get_session : {A : Type 0} → Handler A → Handler A
  unfolding in_session on_process
  get_session body = on_process (ensure_factory platform) >>= in_session body

  -- `app.state.meta_adapter`, `none` where it is not set.
  module _ (meta_adapter : Option (MetaAdapter env.Remote)) where
    unfoldable pub get_meta_adapter : Handler (MetaAdapter env.Remote)
    get_meta_adapter = or_raise meta_adapter runtime_error

    -- `OAuthService(session, settings)`: what it keeps of the settings is the cipher.
    unfoldable pub get_oauth_service : Handler TokenCipher
    unfolding on_process
    get_oauth_service = do
      settings ← on_process (get_settings platform)
      or_raise (token_cipher env.crypto settings.token_encryption_key) value_error

    -- `get_pixel_sync_service` and `get_conversion_tag_service` take the same.
    unfoldable pub get_meta_service : Handler (MetaAdapter env.Remote × TokenCipher)
    unfolding get_meta_adapter get_oauth_service
    get_meta_service = do meta ← get_meta_adapter; oauth ← get_oauth_service; pure (meta, oauth)

    -- The services that stand on this adapter.
    abbrev pub over : MetaAdapter env.Remote → Env
    over meta = record env { adapter = meta }

    unfoldable pub with_meta_service :
        {A : Type 0} → (MetaAdapter env.Remote → TokenCipher → App env A) → Handler Unit
    unfolding get_meta_service on_world
    with_meta_service handler = do
      (meta, oauth) ← get_meta_service
      on_world (handler meta oauth)
      pure tt

    -- The dependencies of each endpoint, and the endpoint.
    unfoldable pub endpoint : Request → Handler Unit
    unfolding with_meta_service on_world get_oauth_service
    endpoint (create_advertiser d) = on_world (Api.create_advertiser env d) >> pure tt
    endpoint (get_advertiser a) = on_world (Api.get_advertiser env a) >> pure tt
    endpoint (list_pixels a) = with_meta_service (λ meta oauth. Api.list_pixels (over meta) a)
    endpoint (list_conversion_tags a) =
        with_meta_service (λ meta oauth. Api.list_conversion_tags (over meta) a)
    endpoint (sync_pixels a) = with_meta_service (λ meta oauth. Api.sync_pixels (over meta) oauth a)
    endpoint (create_conversion_tag a d k) =
        with_meta_service (λ meta oauth. Api.create_conversion_tag (over meta) oauth a d k)
    endpoint (store_token a t r ttl s p) = do
      oauth ← get_oauth_service
      on_world (store_initial_token env oauth a t r ttl s p)
      pure tt

    unfoldable pub respond : Request → Handler Unit
    unfolding endpoint get_session
    respond r = get_session (endpoint r)
