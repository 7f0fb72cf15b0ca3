-- ===== src/Process.antt =====
-- The state that a process keeps between requests: the cached settings (app/core/config.py,
-- `get_settings`), the engine and the session factory (app/db/session.py).
pub mod Ready
pub mod Race
pub mod Owned
use hub_meta_conversion_serv.Base.{
  ℕ, Bool, true, false, String, Option, none, some, List, [], ◌∷◌, ◌++◌, length, if◌then◌else◌,
}
use hub_meta_conversion_serv.Exec.{ok, Exec, ◌>>=◌, ◌>>◌, pure, raise, or_raise, gets}
use hub_meta_conversion_serv.Errors.{Exc, validation_error, argument_error}
use hub_meta_conversion_serv.Config.{Settings}

-- An engine is known by its number: it is the `number`th that was created.
pub record Engine : Type 0 where
  pub number : ℕ
  pub database_url : String
  pub pool_size : ℕ
  pub max_overflow : ℕ
  pub pool_pre_ping : Bool

-- A `sessionmaker`, by its engine.
pub record SessionFactory : Type 0 where
  pub bind : Engine
  pub autoflush : Bool
  pub autocommit : Bool
  pub expire_on_commit : Bool

-- `created` and `disposed` are the engines that were, in order; `open_sessions` those that were
-- opened and not closed, by their engines.
pub record Process : Type 0 where
  pub cached_settings : Option Settings
  pub engine : Option Engine
  pub session_factory : Option SessionFactory
  pub created : List Engine
  pub disposed : List Engine
  pub open_sessions : List Engine

-- The process environment and .env as pydantic-settings reads them, `none` for a `ValidationError`,
-- and the URLs that `create_engine` accepts.
pub record Platform : Type 0 where
  pub environment : Option Settings
  pub accepts_url : String → Bool

module _ (platform : Platform) where
  -- `get_settings`: `lru_cache` keeps what was returned, and not what was raised.
  unfoldable pub load_settings : Option Settings → Exec Process Exc Settings
  load_settings (some settings) = pure settings
  load_settings none = do
    settings ← or_raise platform.environment validation_error
    λ p. (ok settings, record p { cached_settings = some settings })

  unfoldable pub get_settings : Exec Process Exc Settings
  unfolding load_settings
  get_settings = do cached ← gets (λ p. p.cached_settings); load_settings cached

  -- `create_engine(…)`
  abbrev pub new_engine : Settings → Process → Engine
  new_engine settings p = record {
    number = length p.created;
    database_url = settings.database_url;
    pool_size = settings.database_pool_size;
    max_overflow = settings.database_max_overflow;
    pool_pre_ping = true;
  }

  unfoldable pub build_engine : Settings → Exec Process Exc Engine
  build_engine settings p =
      let engine = new_engine settings p in
      if platform.accepts_url settings.database_url
      then pure engine (record p { created = p.created ++ engine ∷ [] })
      else raise argument_error p

  abbrev pub build_session_factory : Engine → SessionFactory
  build_session_factory engine = record {
    bind = engine;
    autoflush = false;
    autocommit = false;
    expire_on_commit = false;
  }

  abbrev set_engine : Engine → Exec Process Exc Unit
  set_engine engine p = (ok tt, record p { engine = some engine })

  abbrev set_factory : SessionFactory → Exec Process Exc Unit
  set_factory factory p = (ok tt, record p { session_factory = some factory })

  -- The two assignments of `_ensure_factory`.
  unfoldable pub connect : Settings → Exec Process Exc SessionFactory
  unfolding build_engine
  connect settings = do
    engine ← build_engine settings
    set_engine engine
    let factory = build_session_factory engine
    set_factory factory
    pure factory

  -- `if _session_factory is None`, and what follows it.
  unfoldable pub build_missing : Option SessionFactory → Exec Process Exc SessionFactory
  unfolding get_settings connect
  build_missing (some factory) = pure factory
  build_missing none = do settings ← get_settings; connect settings

  unfoldable pub ensure_factory : Exec Process Exc SessionFactory
  unfolding build_missing
  ensure_factory = do factory ← gets (λ p. p.session_factory); build_missing factory

abbrev pub dispose : Option Engine → List Engine → List Engine
dispose none disposed = disposed
dispose (some engine) disposed = disposed ++ engine ∷ []

unfoldable pub reset_session_factory : Process → Process
reset_session_factory p = record p {
  engine = none;
  session_factory = none;
  disposed = dispose p.engine p.disposed;
}

-- `factory()` and `session.close()`: the sessions of one request are closed in the order opposite
-- to that of their opening.
unfoldable pub open_session : SessionFactory → Process → Process
open_session factory p = record p { open_sessions = factory.bind ∷ p.open_sessions }

abbrev pub tail : List Engine → List Engine
tail [] = []
tail (e ∷ rest) = rest

unfoldable pub close_session : Process → Process
close_session p = record p { open_sessions = tail p.open_sessions }
