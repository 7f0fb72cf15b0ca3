-- ===== src/Main.antt =====
-- The application (app/main.py) and the health checks (app/api/routes/health.py).
pub mod Lifespan
use hub_meta_conversion_serv.Base.{
  ℕ, suc, Bool, not, String, Option, none, some, List, [], ◌∷◌, ◌++◌, filter, ◌==◌, if◌then◌else◌,
}
use hub_meta_conversion_serv.Exec.{Result, ok, err, Exec, ◌>>=◌, ◌>>◌, pure, raise}
use hub_meta_conversion_serv.Errors.{Exc, attribute_error}
use hub_meta_conversion_serv.Config.{Settings}
use hub_meta_conversion_serv.Meta.Mock.{MockMeta}

-- `MetaApiClient(settings)`: it owns the `httpx.Client` of this number.
pub record MetaApiClient : Type 0 where
  pub number : ℕ
  pub base_url : String
  pub timeout : ℕ
  pub max_retries : ℕ

-- A `MockMetaAdapter` in its state, a `RealMetaAdapter` over its client, or another `MetaAdapter`.
pub data Adapter : Type 0 where
  mock : MockMeta → Adapter
  real : MetaApiClient → Adapter
  another : String → Adapter

-- `app.state`, where `none` is an attribute that is not set, and the HTTP clients of the process.
pub record AppState : Type 0 where
  pub meta_adapter : Option Adapter
  pub settings : Option Settings
  pub clients : ℕ
  pub open_clients : List ℕ

abbrev pub new_mock : Settings → MockMeta
new_mock settings = record {
  pixels = [];
  conversions = [];
  conversions_by_name = [];
  rate_limit_every = settings.meta_mock_rate_limit_every;
  inverse_fail_rate = settings.meta_mock_fail_rate;
  call_counter = 0;
}

abbrev pub client_of : Settings → ℕ → MetaApiClient
client_of settings number = record {
  number = number;
  base_url = settings.meta_api_base_url;
  timeout = settings.meta_api_timeout;
  max_retries = settings.meta_max_retries;
}

unfoldable pub new_client : Settings → Exec AppState Exc MetaApiClient
new_client settings s = (
  ok (client_of settings s.clients),
  record s { clients = suc s.clients; open_clients = s.open_clients ++ s.clients ∷ [] },
)

unfoldable pub build_default_adapter : Settings → Exec AppState Exc Adapter
build_default_adapter settings =
    if settings.meta_use_mock
    then pure (mock (new_mock settings))
    else (new_client settings >>= λ client. pure (real client))

-- `meta_adapter or _build_default_adapter(settings)`
unfoldable pub given_or_default : Option Adapter → Settings → Exec AppState Exc Adapter
given_or_default (some adapter) settings = pure adapter
given_or_default none settings = build_default_adapter settings

unfoldable pub close_client : MetaApiClient → AppState → AppState
close_client client s = record s {
  open_clients = filter (λ n. not (client.number == n)) s.open_clients;
}

-- The `finally` of the lifespan, on the result of what ran before.
unfoldable pub shut_down : {A : Type 0} → Option Adapter → Result Exc A → Exec AppState Exc A
shut_down none r s = (err attribute_error, s)
shut_down (some (mock m)) r s = (r, s)
shut_down (some (real client)) r s = (r, close_client client s)
shut_down (some (another name)) r s = (r, s)

unfoldable pub set_state : Adapter → Settings → Exec AppState Exc Unit
set_state adapter settings s =
    (ok tt, record s { meta_adapter = some adapter; settings = some settings })

-- What runs while the application is up, and the shutdown.
unfoldable pub serve_and_stop : {A : Type 0} → Exec AppState Exc A → Exec AppState Exc A
serve_and_stop serving s = let (r, s') = serving s in shut_down s'.meta_adapter r s'

-- `lifespan`, around what runs at its `yield`.
unfoldable pub lifespan :
    {A : Type 0} → Option Adapter → Settings → Exec AppState Exc A → Exec AppState Exc A
lifespan meta_adapter settings serving = do
  adapter ← given_or_default meta_adapter settings
  set_state adapter settings
  serve_and_stop serving

abbrev pub healthz : List (String × String)
healthz = ("status", "ok") ∷ []

abbrev pub readyz : List (String × String)
readyz = ("status", "ready") ∷ []
