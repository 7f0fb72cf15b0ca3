-- ===== src/OAuth.antt =====
-- OAuth token storage and refresh (app/services/oauth_service.py).
pub mod Freshness
pub mod Refreshed
use hub_meta_conversion_serv.Base.{
  ℕ, ◌+◌, ◌*◌, ◌%◌, ◌^◌, decimal_from, true, String, Option, none, some, ltb, str_eq, if◌then◌else◌,
}
use hub_meta_conversion_serv.Exec.{◌>>=◌, ◌>>◌, pure, or_raise}
use hub_meta_conversion_serv.Models.{Uuid, Bytes, DateTime, OAuthToken}
use hub_meta_conversion_serv.Env.{Env}
use hub_meta_conversion_serv.Errors.{not_found, value_error, no_token, token_expired}
use hub_meta_conversion_serv.Security.{TokenCipher, encrypt, decrypt}
use hub_meta_conversion_serv.Session.{App, now}
use hub_meta_conversion_serv.Repositories.OAuthToken as Tokens
use Prim.Native.String.{◌++◌}

abbrev pub meta_provider : String
meta_provider = "meta"

-- `timedelta(hours=1)`, in microseconds.
abbrev pub default_ttl : ℕ
default_ttl = 3600 * 10 ^ 6

-- `_REFRESH_LEEWAY_SECONDS`, in microseconds.
abbrev pub refresh_leeway : ℕ
refresh_leeway = 60 * 10 ^ 6

pub record AccessToken : Type 0 where
  pub value : String
  pub expires_at : DateTime

-- `if expires_at.tzinfo is None: expires_at = expires_at.replace(tzinfo=timezone.utc)`
abbrev pub with_utc : DateTime → DateTime
with_utc t = record t { aware = true }

abbrev pub utc : ℕ → DateTime
utc t = record { micros = t; aware = true }

module _ (env : Env) where
  -- `self.cipher.encrypt(token) if token else None`
  unfoldable pub encrypt_if : TokenCipher → Option String → Option Bytes
  encrypt_if cipher none = none
  encrypt_if cipher (some token) =
      if str_eq token "" then none else some (encrypt env.crypto cipher token)

  -- `ttl` is in microseconds.
  unfoldable pub store_initial_token :
      TokenCipher → Uuid → String → Option String → ℕ → Option String → String → App env Unit
  store_initial_token cipher advertiser_id access_token refresh_token ttl scopes provider = do
    t ← now env
    Tokens.upsert env (record {
      advertiser_id = advertiser_id;
      provider = provider;
      access_token_encrypted = encrypt env.crypto cipher access_token;
      refresh_token_encrypted = encrypt_if cipher refresh_token;
      expires_at = utc (t + ttl);
      scopes = scopes;
    })

  -- The stand-in for the provider: a token derived from the refresh token, no new refresh token.
  unfoldable pub refresh_with_provider : String → String × Option String × ℕ
  unfolding decimal_from
  refresh_with_provider refresh_token =
      ("mock-access-" ++ decimal_from 11 (env.abs_hash refresh_token % 10 ^ 12), none, default_ttl)

  -- `self.cipher.decrypt(…)`
  unfoldable pub decrypted : TokenCipher → Bytes → App env String
  decrypted cipher token = or_raise (decrypt env.crypto cipher token) value_error

  -- What `get_access_token` does once the provider has answered.
  unfoldable pub save_refreshed :
      TokenCipher → Uuid → String → OAuthToken → String × Option String × ℕ → App env AccessToken
  save_refreshed cipher advertiser_id provider token (new_access, new_refresh, new_ttl) = do
    t ← now env
    Tokens.upsert env (record {
      advertiser_id = advertiser_id;
      provider = provider;
      access_token_encrypted = encrypt env.crypto cipher new_access;
      refresh_token_encrypted = encrypt_if cipher new_refresh;
      expires_at = utc (t + new_ttl);
      scopes = token.scopes;
    })
    pure (record { value = new_access; expires_at = utc (t + new_ttl) })

  -- The part of `get_access_token` for a token that is about to expire.
  unfoldable pub refresh : TokenCipher → Uuid → String → OAuthToken → App env AccessToken
  refresh cipher advertiser_id provider token = do
    encrypted ←
        or_raise token.refresh_token_encrypted (not_found (token_expired provider advertiser_id))
    refresh_token ← decrypted cipher encrypted
    save_refreshed cipher advertiser_id provider token (refresh_with_provider refresh_token)

  -- The part for a token that is still good.
  unfoldable pub cached : TokenCipher → OAuthToken → App env AccessToken
  cached cipher token = do
    value ← decrypted cipher token.access_token_encrypted
    pure (record { value = value; expires_at = with_utc token.expires_at })

  -- `(expires_at - now).total_seconds() > leeway`, with the difference moved to the other side.
  unfoldable pub get_access_token : TokenCipher → Uuid → String → App env AccessToken
  get_access_token cipher advertiser_id provider = do
    found ← Tokens.get env advertiser_id provider
    token ← or_raise found (not_found (no_token provider advertiser_id))
    t ← now env
    let good = ltb (t + refresh_leeway) (with_utc token.expires_at).micros
    if good then cached cipher token else refresh cipher advertiser_id provider token
