-- ===== src/Deps/Keyless.antt =====
-- The service without TOKEN_ENCRYPTION_KEY (app/services/oauth_service.py, `__init__`, and
-- app/core/security.py).
use hub_meta_conversion_serv.Base.{◌≡◌, refl, arith, Bool, true, false, none, some}
use hub_meta_conversion_serv.Exec.{err, ◌>>=◌, pure, raise, or_raise}
use hub_meta_conversion_serv.Errors.{value_error}
use hub_meta_conversion_serv.Env.{Env}
use hub_meta_conversion_serv.Session.{App, begin, rollback}
use hub_meta_conversion_serv.Security.{TokenCipher, token_cipher}
use hub_meta_conversion_serv.Meta.Adapter.{MetaAdapter}
use hub_meta_conversion_serv.Config.{Settings}
use hub_meta_conversion_serv.Process.{Process, Platform, open_session}
use hub_meta_conversion_serv.Requests.{
  Request, create_advertiser, get_advertiser, list_pixels, list_conversion_tags, sync_pixels,
  create_conversion_tag, store_token,
}
use hub_meta_conversion_serv.Deps.{
  Server, Handler, on_process, end_session, in_session, get_session, get_meta_adapter,
  get_oauth_service, get_meta_service, with_meta_service, endpoint, respond,
}
use hub_meta_conversion_serv.Process.Ready.{
  settings_in, CanConnect, caching, get_settings-returns, ensure_factory-returns,
}

-- The requests whose services are built with the OAuth service, listings among them.
abbrev pub uses_oauth : Request → Bool
uses_oauth (create_advertiser d) = false
uses_oauth (get_advertiser a) = false
uses_oauth _ = true

module _ (platform : Platform) (env : Env) (meta : MetaAdapter env.Remote) (settings : Settings)
    (keyless : settings.token_encryption_key ≡ "") where
  abbrev S : Type 0
  S = Server env.Remote env.Json

  -- Raising with nothing but the process touched.
  abbrev Refuses : Handler platform env Unit → S → Type 0
  Refuses body s = (p : Process) × (body s ≡ (err value_error, record s { process = p }))

  no_cipher : token_cipher env.crypto settings.token_encryption_key ≡ none
  unfolding token_cipher
  no_cipher = rw keyless refl

  oauth_raises :
      (s : S)
      → settings_in platform s.process ≡ some settings
      → get_oauth_service platform env (some meta) s
        ≡ (err value_error, record s { process = caching platform settings s.process })
  unfolding get_oauth_service on_process ◌>>=◌ or_raise pure raise
  oauth_raises s h = rw (get_settings-returns platform settings s.process h, no_cipher) refl

  meta_service-Refuses :
      {A : Type 0} (handler : MetaAdapter env.Remote → TokenCipher → App env A) (s : S)
      → settings_in platform s.process ≡ some settings
      → Refuses (with_meta_service platform env (some meta) handler) s
  unfolding with_meta_service get_meta_service get_meta_adapter ◌>>=◌ or_raise pure
  meta_service-Refuses handler s h =
      (caching platform settings s.process, rw (oauth_raises s h) refl)

  endpoint-Refuses :
      (r : Request) (s : S)
      → uses_oauth r ≡ true
      → settings_in platform s.process ≡ some settings
      → Refuses (endpoint platform env (some meta) r) s
  unfolding endpoint ◌>>=◌
  endpoint-Refuses (create_advertiser d) s u h = absurd (ground arith)
  endpoint-Refuses (get_advertiser a) s u h = absurd (ground arith)
  endpoint-Refuses (list_pixels a) s u h = meta_service-Refuses _ s h
  endpoint-Refuses (list_conversion_tags a) s u h = meta_service-Refuses _ s h
  endpoint-Refuses (sync_pixels a) s u h = meta_service-Refuses _ s h
  endpoint-Refuses (create_conversion_tag a d k) s u h = meta_service-Refuses _ s h
  endpoint-Refuses (store_token a t r ttl sc p) s u h =
      (caching platform settings s.process, rw (oauth_raises s h) refl)

  -- The settings can be loaded but their encryption key is empty, a session factory is there or
  -- the engine can be built, and an adapter is on app.state. Then every request but the creation
  -- and the reading of an advertiser, the listings included, raises ValueError, and the world is
  -- left as its session's begin found it.
  pub no_key_no_oauth :
      (r : Request) (s : S)
      → uses_oauth r ≡ true
      → settings_in platform s.process ≡ some settings
      → CanConnect platform s.process settings
      → let (result, s') = respond platform env (some meta) r s in
        (result ≡ err value_error) × (s'.world ≡ begin s.world)
  unfolding respond get_session in_session end_session on_process open_session begin rollback ◌>>=◌
  no_key_no_oauth r s u h k =
      let (f, p', e, u') = ensure_factory-returns platform settings s.process h k in
      let s1 : S = record { process = open_session f p'; world = begin s.world } in
      let (p, same) = endpoint-Refuses r s1 u u' in rw (e, same) (refl, refl)
