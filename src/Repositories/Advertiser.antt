-- ===== src/Repositories/Advertiser.antt =====
-- app/repositories/advertiser.py
use hub_meta_conversion_serv.Base.{ℕ, String, Option, ◌==◌, str_eq}
use hub_meta_conversion_serv.Models.{Uuid, Advertiser}
use hub_meta_conversion_serv.Models.Tables
use hub_meta_conversion_serv.Env.{Env}
use hub_meta_conversion_serv.Session.{App, scalar, flush_add}

module _ (env : Env) where
  -- `make` is the `Advertiser(…)` of the caller, which gets its id and timestamps at the flush.
  unfoldable pub create : (Uuid → ℕ → Advertiser) → App env Advertiser
  create make = flush_add env Tables.advertisers make

  unfoldable pub get : Uuid → App env (Option Advertiser)
  get advertiser_id = scalar env Tables.advertisers (λ r. r.id == advertiser_id)

  unfoldable pub get_by_external_ref : String → App env (Option Advertiser)
  get_by_external_ref external_ref =
      scalar env Tables.advertisers (λ r. str_eq r.external_ref external_ref)
