-- ===== src/Deps/Answers.antt =====
-- What the dependencies make of a request: with a usable configuration it is served, and without a
-- key the endpoints that need one raise (app/api/deps.py, app/services/oauth_service.py).
use hub_meta_conversion_serv.Base.{◌≡◌, refl, ap, subst, arith, ℕ, String, Option, some}
use hub_meta_conversion_serv.Exec.{Result, ok, err, continue, ◌>>=◌, ◌>>◌, pure, or_raise}
use hub_meta_conversion_serv.Errors.{Exc}
use hub_meta_conversion_serv.Env.{Env}
use hub_meta_conversion_serv.Session.{
  World, App, begin, commit, rollback, close, with_session, scalar, flush_add, flush_set, roll_back,
  now,
}
use hub_meta_conversion_serv.Security.{TokenCipher, token_cipher}
use hub_meta_conversion_serv.Meta.Adapter.{MetaAdapter}
use hub_meta_conversion_serv.Config.{Settings}
use hub_meta_conversion_serv.Process.{Platform, open_session}
use hub_meta_conversion_serv.Requests.{Request, Outcome, outcome, forget, serve}
use hub_meta_conversion_serv.Requests.{
  create_advertiser, get_advertiser, list_pixels, list_conversion_tags, sync_pixels,
  create_conversion_tag, store_token,
}
use hub_meta_conversion_serv.OAuth.{store_initial_token, encrypt_if}
use hub_meta_conversion_serv.Repositories.Advertiser as AdvertiserRepo
use hub_meta_conversion_serv.Repositories.OAuthToken as TokenRepo
use hub_meta_conversion_serv.Api
use hub_meta_conversion_serv.Advertisers
use hub_meta_conversion_serv.Models.{Uuid}
use hub_meta_conversion_serv.Schemas.{AdvertiserCreate}
use hub_meta_conversion_serv.Deps.{
  Server, Handler, on_process, on_world, end_session, in_session, get_session, get_meta_adapter,
  get_oauth_service, get_meta_service, over, with_meta_service, endpoint, respond,
}
use hub_meta_conversion_serv.Process.Ready.{
  settings_in, CanConnect, get_settings-returns, ensure_factory-returns,
}

module _ (platform : Platform) (env : Env) (meta : MetaAdapter env.Remote) (settings : Settings)
    (cipher : TokenCipher) where
  abbrev S : Type 0
  S = Server env.Remote env.Json

  abbrev Usable : S → Type 0
  Usable s = settings_in platform s.process ≡ some settings

  -- A handler in the world of a server, with its value forgotten.
  abbrev unit_of : {A : Type 0} → Result Exc A → Result {0, 0} Exc Unit
  unit_of (ok a) = ok tt
  unit_of (err e) = err e

  -- What an endpoint leaves: the process aside, what the handler does.
  abbrev Serves : {A : Type 0} → App env A → S → Result {0, 0} Exc Unit × S → Type 0
  Serves m s out = (out.0 ≡ unit_of (m s.world).0) × (out.1.world ≡ (m s.world).1)

  finished : {A : Type 0} (r : Result Exc A) (s : S) → continue r (λ a. pure tt) s ≡ (unit_of r, s)
  unfolding pure
  finished (ok a) s = refl
  finished (err e) s = refl

  plain-Serves :
      {A : Type 0} (m : App env A) (s : S) → Serves m s ((on_world platform env m >> pure tt) s)
  unfolding on_world ◌>>=◌
  plain-Serves m s = rw (finished (m s.world).0 (record s { world = (m s.world).1 })) (refl, refl)

  module _ (known : token_cipher env.crypto settings.token_encryption_key ≡ some cipher) where
    oauth_returns :
        (s : S)
        → Usable s
        → get_oauth_service platform env (some meta) s
          ≡ (ok cipher, record s { process = record s.process { cached_settings = some settings } })
    unfolding get_oauth_service on_process ◌>>=◌ or_raise pure
    oauth_returns s h = rw (get_settings-returns platform settings s.process h, known) refl

    meta-Serves :
        {A : Type 0} (handler : MetaAdapter env.Remote → TokenCipher → App env A) (s : S)
        → Usable s
        → Serves (handler meta cipher) s (with_meta_service platform env (some meta) handler s)
    unfolding with_meta_service get_meta_service get_meta_adapter on_world ◌>>=◌ or_raise pure
    meta-Serves handler s h =
        rw
          (
            oauth_returns s h,
            finished (handler meta cipher s.world).0 (record s {
              process = record s.process { cached_settings = some settings };
              world = (handler meta cipher s.world).1;
            }),
          )
          (refl, refl)

  -- The outcome of a request and the world after it.
  abbrev Matches : Result {0, 0} Exc Unit × S → Outcome × World env.Remote env.Json → Type 0
  Matches x y = (outcome x.0 ≡ y.0) × (x.1.world ≡ y.1)

  abbrev there : Env
  there = over platform env (some meta) meta

  ended-Matches :
      {A : Type 0} (x : Result {0, 0} Exc Unit) (s : S) (r : Result {0, 0} Exc A)
      (w : World env.Remote env.Json)
      → x ≡ unit_of r
      → s.world ≡ w
      → Matches
          (end_session platform env (x, s))
          (let (r', w') = close there (r, w) in (outcome r', w'))
  unfolding end_session close
  ended-Matches (ok u) s (ok a) w e h = (refl, ap commit h)
  ended-Matches (ok u) s (err y) w e h = absurd (ground arith)
  ended-Matches (err x) s (ok a) w e h = absurd (ground arith)
  ended-Matches (err x) s (err y) w e h = (ground arith, ap rollback h)

  session-Matches :
      {A : Type 0} (m : App there A) (body : Handler platform env Unit) (s : S)
      → ((s : S) → Usable s → Serves m s (body s))
      → Usable s
      → CanConnect platform s.process settings
      → Matches (get_session platform env body s) (forget there m s.world)
  unfolding get_session in_session on_process open_session with_session ◌>>=◌
  session-Matches m body s serves h k =
      let (f, p', e, u) = ensure_factory-returns platform settings s.process h k in
      let s1 : S = record { process = open_session f p'; world = begin s.world } in
      let (same, after) = serves s1 u in
      rw e (
        ended-Matches (body s1).0 (body s1).1 (m (begin s.world)).0 (m (begin s.world)).1 same
          after)

  -- Handlers that do not call the adapter do the same over any.
  create_advertiser-over :
      (d : AdvertiserCreate) → Api.create_advertiser env d ≡ Api.create_advertiser there d
  unfolding Api.create_advertiser Advertisers.create AdvertiserRepo.create Advertisers.on_conflict
      flush_add roll_back
  create_advertiser-over d = refl

  get_advertiser-over : (a : Uuid) → Api.get_advertiser env a ≡ Api.get_advertiser there a
  unfolding Api.get_advertiser Advertisers.get AdvertiserRepo.get scalar
  get_advertiser-over a = refl

  store_initial_token-over :
      (c : TokenCipher) (a : Uuid) (t : String) (r : Option String) (ttl : ℕ) (s : Option String)
      (p : String)
      → store_initial_token env c a t r ttl s p ≡ store_initial_token there c a t r ttl s p
  unfolding store_initial_token now encrypt_if TokenRepo.upsert TokenRepo.get
      TokenRepo.insert_or_renew scalar flush_add flush_set
  store_initial_token-over c a t r ttl s p = refl

  module _ (known : token_cipher env.crypto settings.token_encryption_key ≡ some cipher) where
    token-Serves :
        {A : Type 0} (handler : TokenCipher → App env A) (s : S)
        → Usable s
        → Serves (handler cipher) s (
            (get_oauth_service platform env (some meta) >>= λ oauth.
            on_world platform env (handler oauth) >> pure tt)
              s)
    unfolding on_world ◌>>=◌ pure
    token-Serves handler s h =
        rw
          (
            oauth_returns known s h,
            finished (handler cipher s.world).0 (record s {
              process = record s.process { cached_settings = some settings };
              world = (handler cipher s.world).1;
            }),
          )
          (refl, refl)

    -- The settings can be loaded, with a key that makes this cipher, a session factory is there or
    -- the engine can be built from them, and an adapter is on app.state. Then a request through
    -- the dependencies ends as the request served with that cipher and adapter in one session, and
    -- leaves the same world.
    pub requests_are_served :
        (r : Request) (s : S)
        → settings_in platform s.process ≡ some settings
        → CanConnect platform s.process settings
        → let (result, s') = respond platform env (some meta) r s in
          let (o, w) = serve there cipher r s.world in (outcome result ≡ o) × (s'.world ≡ w)
    unfolding respond endpoint serve
    requests_are_served (create_advertiser d) s h k =
        session-Matches (Api.create_advertiser there d)
          (endpoint platform env (some meta) (create_advertiser d)) s
          (λ s u.
            subst (λ m. Serves m s (endpoint platform env (some meta) (create_advertiser d) s))
              (create_advertiser-over d) (plain-Serves (Api.create_advertiser env d) s))
          h k
    requests_are_served (get_advertiser a) s h k =
        session-Matches (Api.get_advertiser there a)
          (endpoint platform env (some meta) (get_advertiser a)) s
          (λ s u.
            subst (λ m. Serves m s (endpoint platform env (some meta) (get_advertiser a) s))
              (get_advertiser-over a) (plain-Serves (Api.get_advertiser env a) s))
          h k
    requests_are_served (list_pixels a) s h k =
        session-Matches _ (endpoint platform env (some meta) (list_pixels a)) s
          (meta-Serves known (λ m o. Api.list_pixels (over platform env (some meta) m) a)) h k
    requests_are_served (list_conversion_tags a) s h k =
        session-Matches _ (endpoint platform env (some meta) (list_conversion_tags a)) s
          (meta-Serves known (λ m o. Api.list_conversion_tags (over platform env (some meta) m) a))
          h k
    requests_are_served (sync_pixels a) s h k =
        session-Matches _ (endpoint platform env (some meta) (sync_pixels a)) s
          (meta-Serves known (λ m o. Api.sync_pixels (over platform env (some meta) m) o a)) h k
    requests_are_served (create_conversion_tag a d q) s h k =
        session-Matches _ (endpoint platform env (some meta) (create_conversion_tag a d q)) s
          (meta-Serves known
            (λ m o. Api.create_conversion_tag (over platform env (some meta) m) o a d q))
          h k
    requests_are_served (store_token a t r ttl sc p) s h k =
        session-Matches (store_initial_token there cipher a t r ttl sc p)
          (endpoint platform env (some meta) (store_token a t r ttl sc p)) s
          (λ s u.
            subst
              (λ m. Serves m s (endpoint platform env (some meta) (store_token a t r ttl sc p) s))
              (store_initial_token-over cipher a t r ttl sc p)
              (token-Serves (λ o. store_initial_token env o a t r ttl sc p) s u))
          h k
