-- ===== src/Repositories/OAuthToken.antt =====
-- app/repositories/oauth_token.py
use hub_meta_conversion_serv.Base.{ℕ, String, Option, none, some, ◌==◌, str_eq, ◌&&◌}
use hub_meta_conversion_serv.Exec.{◌>>=◌, ◌>>◌, pure}
use hub_meta_conversion_serv.Models.{Uuid, Bytes, DateTime, OAuthToken}
use hub_meta_conversion_serv.Models.Tables
use hub_meta_conversion_serv.Env.{Env}
use hub_meta_conversion_serv.Session.{App, scalar, flush_add, flush_set}

-- The keyword arguments of `upsert`.
pub record Upsert : Type 0 where
  pub advertiser_id : Uuid
  pub provider : String
  pub access_token_encrypted : Bytes
  pub refresh_token_encrypted : Option Bytes
  pub expires_at : DateTime
  pub scopes : Option String

abbrev pub new_token : Upsert → Uuid → ℕ → OAuthToken
new_token u id now = record {
  id = id;
  advertiser_id = u.advertiser_id;
  provider = u.provider;
  access_token_encrypted = u.access_token_encrypted;
  refresh_token_encrypted = u.refresh_token_encrypted;
  expires_at = u.expires_at;
  scopes = u.scopes;
  created_at = now;
  updated_at = now;
}

-- `if value is not None: attribute = value`
abbrev pub or_keep : {A : Type 0} → Option A → Option A → Option A
or_keep none old = old
or_keep (some value) old = some value

unfoldable pub renewed : Upsert → ℕ → OAuthToken → OAuthToken
renewed u now r = record r {
  access_token_encrypted = u.access_token_encrypted;
  refresh_token_encrypted = or_keep u.refresh_token_encrypted r.refresh_token_encrypted;
  expires_at = u.expires_at;
  scopes = or_keep u.scopes r.scopes;
  updated_at = now;
}

module _ (env : Env) where
  unfoldable pub get : Uuid → String → App env (Option OAuthToken)
  get advertiser_id provider =
      scalar env Tables.oauth_tokens
        (λ r. r.advertiser_id == advertiser_id && str_eq r.provider provider)

  -- The two branches of `upsert`, whose result no caller reads.
  unfoldable pub insert_or_renew : Upsert → Option OAuthToken → App env Unit
  insert_or_renew u none = flush_add env Tables.oauth_tokens (new_token u) >> pure tt
  insert_or_renew u (some existing) =
      flush_set env Tables.oauth_tokens (λ r. r.id == existing.id) (renewed u)

  unfoldable pub upsert : Upsert → App env Unit
  upsert u = do existing ← get u.advertiser_id u.provider; insert_or_renew u existing
