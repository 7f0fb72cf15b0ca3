-- ===== src/Requests.antt =====
-- The requests that a client can make (app/api/routes), each in its own session, and the worlds
-- that sequences of them reach.
pub mod Keeps
pub mod Stability
pub mod Isolation
pub mod Persistence
pub mod TagsDone
pub mod Alone
use hub_meta_conversion_serv.Base.{ℕ, String, Option, List, [], ◌∷◌}
use hub_meta_conversion_serv.Exec.{Result, ok, err}
use hub_meta_conversion_serv.Models.{Uuid}
use hub_meta_conversion_serv.Schemas.{AdvertiserCreate, ConversionTagCreate}
use hub_meta_conversion_serv.Errors.{Exc}
use hub_meta_conversion_serv.Security.{TokenCipher}
use hub_meta_conversion_serv.Env.{Env}
use hub_meta_conversion_serv.Session.{World, App, with_session}
use hub_meta_conversion_serv.OAuth.{store_initial_token}
use hub_meta_conversion_serv.Api

-- `store_token` is no endpoint: it is how an operator seeds a token (README, app/services).
pub data Request : Type 0 where
  create_advertiser : AdvertiserCreate → Request
  get_advertiser : Uuid → Request
  list_pixels : Uuid → Request
  list_conversion_tags : Uuid → Request
  sync_pixels : Uuid → Request
  create_conversion_tag : Uuid → ConversionTagCreate → Option String → Request
  store_token : Uuid → String → Option String → ℕ → Option String → String → Request

-- How a request ended; what it returned is left to the theorems about each handler.
pub data Outcome : Type 0 where
  returned : Outcome
  raised : Exc → Outcome

abbrev pub outcome : {A : Type 0} → Result Exc A → Outcome
outcome (ok a) = returned
outcome (err e) = raised e

module _ (env : Env) where
  abbrev pub forget :
      {A : Type 0} → App env A → World env.Remote env.Json → Outcome × World env.Remote env.Json
  forget m w = let (r, w') = with_session env m w in (outcome r, w')

  unfoldable pub serve :
      TokenCipher → Request → World env.Remote env.Json → Outcome × World env.Remote env.Json
  serve c (create_advertiser d) = forget (Api.create_advertiser env d)
  serve c (get_advertiser a) = forget (Api.get_advertiser env a)
  serve c (list_pixels a) = forget (Api.list_pixels env a)
  serve c (list_conversion_tags a) = forget (Api.list_conversion_tags env a)
  serve c (sync_pixels a) = forget (Api.sync_pixels env c a)
  serve c (create_conversion_tag a d k) = forget (Api.create_conversion_tag env c a d k)
  serve c (store_token a t r ttl s p) = forget (store_initial_token env c a t r ttl s p)

  -- One request after another.
  unfoldable pub serve_all :
      TokenCipher → List Request → World env.Remote env.Json → World env.Remote env.Json
  serve_all c [] w = w
  serve_all c (r ∷ rest) w = serve_all c rest (serve c r w).1
