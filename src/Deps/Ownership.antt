-- ===== src/Deps/Ownership.antt =====
-- What a process owns of the database over its life: engines and sessions (app/db/session.py).
use hub_meta_conversion_serv.Base.{refl, ap, Option, List, [], ◌∷◌}
use hub_meta_conversion_serv.Exec.{Exec, Result, ok, err}
use hub_meta_conversion_serv.Exec.Keeps.{Keeps, keeps_rules, Keeps-bind, Keeps-or_raise}
use hub_meta_conversion_serv.Errors.{Exc}
use hub_meta_conversion_serv.Env.{Env}
use hub_meta_conversion_serv.Session.{App}
use hub_meta_conversion_serv.Security.{TokenCipher}
use hub_meta_conversion_serv.Meta.Adapter.{MetaAdapter}
use hub_meta_conversion_serv.Config.{Settings}
use hub_meta_conversion_serv.Process.{
  Engine, SessionFactory, Process, Platform, reset_session_factory, open_session, close_session,
  tail,
}
use hub_meta_conversion_serv.Requests.{
  Request, create_advertiser, get_advertiser, list_pixels, list_conversion_tags, sync_pixels,
  create_conversion_tag, store_token,
}
use hub_meta_conversion_serv.Deps.{
  Server, on_process, on_world, end_session, in_session, get_session, get_meta_adapter,
  get_oauth_service, get_meta_service, with_meta_service, endpoint, respond,
}
use hub_meta_conversion_serv.Process.Owned.{
  Owns, Owns-caching, get_settings-Keeps, ensure_factory-Owns,
}

-- What happens to a process: a request, with what `app.state` then has for the adapter, or a reset.
pub data Event (R : Type 0) : Type 0 where
  request : Option (MetaAdapter R) → Request → Event R
  reset : Event R

module _ (platform : Platform) (env : Env) where
  unfoldable pub happen : Event env.Remote → Server env.Remote env.Json → Server env.Remote env.Json
  unfolding respond reset_session_factory
  happen (request meta r) s = (respond platform env meta r s).1
  happen reset s = record s { process = reset_session_factory s.process }

  unfoldable pub happen_all :
      List (Event env.Remote) → Server env.Remote env.Json → Server env.Remote env.Json
  unfolding happen
  happen_all [] s = s
  happen_all (e ∷ es) s = happen_all es (happen e s)

module _ (platform : Platform) (env : Env) (P : Process → Type 0)
    (any_cache : (p : Process) (o : Option Settings) → P p → P (record p { cached_settings = o }))
    (meta_adapter : Option (MetaAdapter env.Remote)) where
  abbrev Lifted : Server env.Remote env.Json → Type 0
  Lifted s = P s.process

  on_process-Keeps :
      {A : Type 0} (m : Exec Process Exc A) → Keeps P m → Keeps Lifted (on_process platform env m)
  unfolding on_process
  on_process-Keeps m k = record { at = λ s h. k.at s.process h }

  on_world-Keeps : {A : Type 0} (m : App env A) → Keeps Lifted (on_world platform env m)
  unfolding on_world
  on_world-Keeps m = record { at = λ s h. h }

  oauth-Keeps : Keeps Lifted (get_oauth_service platform env meta_adapter)
  unfolding get_oauth_service
  oauth-Keeps =
      Keeps-bind _ _ (on_process-Keeps _ (get_settings-Keeps platform P any_cache))
        (λ settings. Keeps-or_raise _ _)

  meta_service-Keeps :
      {A : Type 0} (handler : MetaAdapter env.Remote → TokenCipher → App env A)
      → Keeps Lifted (with_meta_service platform env meta_adapter handler)
  unfolding with_meta_service get_meta_service get_meta_adapter
  meta_service-Keeps handler = search (keeps_rules, oauth-Keeps, on_world-Keeps)

  endpoint-Keeps : (r : Request) → Keeps Lifted (endpoint platform env meta_adapter r)
  unfolding endpoint
  endpoint-Keeps (create_advertiser d) = search (keeps_rules, on_world-Keeps)
  endpoint-Keeps (get_advertiser a) = search (keeps_rules, on_world-Keeps)
  endpoint-Keeps (list_pixels a) = meta_service-Keeps _
  endpoint-Keeps (list_conversion_tags a) = meta_service-Keeps _
  endpoint-Keeps (sync_pixels a) = meta_service-Keeps _
  endpoint-Keeps (create_conversion_tag a d k) = meta_service-Keeps _
  endpoint-Keeps (store_token a t r ttl sc p) = search (keeps_rules, oauth-Keeps, on_world-Keeps)

module _ (platform : Platform) (env : Env) where
  abbrev OwnsAll : Server env.Remote env.Json → Type 0
  OwnsAll s = Owns [] s.process

  end_session-Owns :
      (r : Result Exc Unit) (s : Server env.Remote env.Json) (e : Engine)
      → Owns (e ∷ []) s.process
      → OwnsAll (end_session platform env (r, s)).1
  unfolding end_session close_session
  end_session-Owns (ok a) s e h = record {
    engines = h.engines;
    factory = h.factory;
    sessions_open = ap tail h.sessions_open;
  }
  end_session-Owns (err x) s e h = record {
    engines = h.engines;
    factory = h.factory;
    sessions_open = ap tail h.sessions_open;
  }

  in_session-Keeps :
      (meta : Option (MetaAdapter env.Remote)) (r : Request) (f : SessionFactory)
      → Keeps OwnsAll (in_session platform env (endpoint platform env meta r) f)
  unfolding in_session open_session
  in_session-Keeps meta r f = record {
    at = λ s h. end_session-Owns _ _ f.bind (
        (endpoint-Keeps platform env (Owns (f.bind ∷ [])) (Owns-caching platform (f.bind ∷ [])) meta
            r).at
          _
          (record {
            engines = h.engines;
            factory = h.factory;
            sessions_open = ap (◌∷◌ f.bind) h.sessions_open;
          }));
  }

  respond-Keeps :
      (meta : Option (MetaAdapter env.Remote)) (r : Request)
      → Keeps OwnsAll (respond platform env meta r)
  unfolding respond get_session
  respond-Keeps meta r =
      Keeps-bind _ _
        (record {
          at = λ s h.
              (on_process-Keeps platform env (Owns []) (Owns-caching platform []) meta _
                  (ensure_factory-Owns platform [])).at
                s h;
        })
        (in_session-Keeps meta r)

  happen-Owns :
      (e : Event env.Remote) (s : Server env.Remote env.Json)
      → OwnsAll s
      → OwnsAll (happen platform env e s)
  unfolding happen reset_session_factory
  happen-Owns (request meta r) s h = (respond-Keeps meta r).at s h
  happen-Owns reset s h = record {
    engines = h.engines;
    factory = refl;
    sessions_open = h.sessions_open;
  }

  -- `Owns []` says that every engine that was created is disposed of or is the one in use, that
  -- the session factory is there exactly if an engine is in use and makes its sessions, and that
  -- no session is open. If it holds, it holds after any requests, whether they succeed or fail,
  -- and any resets, one after the other.
  pub engines_are_owned :
      (events : List (Event env.Remote)) (s : Server env.Remote env.Json)
      → Owns [] s.process
      → Owns [] (happen_all platform env events s).process
  unfolding happen_all
  engines_are_owned [] s h = h
  engines_are_owned (e ∷ events) s h =
      engines_are_owned events (happen platform env e s) (happen-Owns e s h)
