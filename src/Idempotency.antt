-- ===== src/Idempotency.antt =====
-- Idempotency keys (app/services/idempotency.py).
use hub_meta_conversion_serv.Base.{
  ℕ, ◌+◌, ◌*◌, ◌^◌, String, Option, none, some, str_eq, if◌then◌else◌,
}
use hub_meta_conversion_serv.Exec.{◌>>=◌, ◌>>◌, pure, raise}
use hub_meta_conversion_serv.Models.{IdempotencyRecord}
use hub_meta_conversion_serv.Env.{Env}
use hub_meta_conversion_serv.Errors.{idempotency_conflict, key_reused}
use hub_meta_conversion_serv.Session.{App, now}
use hub_meta_conversion_serv.OAuth.{utc}
use hub_meta_conversion_serv.Repositories.Idempotency as Repo

-- `timedelta(hours=24)`, in microseconds.
abbrev pub record_ttl : ℕ
record_ttl = 24 * 3600 * 10 ^ 6

module _ (env : Env) where
  unfoldable pub hash_request : env.Json → String
  hash_request payload = env.sha256_hex (env.crypto.utf8_encode (env.json_dumps payload))

  -- The body of `lookup` once the record is read.
  unfoldable pub replayed :
      String → Option (IdempotencyRecord env.Json) → App env (Option (ℕ × env.Json))
  replayed request_hash none = pure none
  replayed request_hash (some existing) =
      if str_eq existing.request_hash request_hash
      then pure (some (existing.response_status, existing.response_body))
      else raise (idempotency_conflict key_reused)

  unfoldable pub lookup : String → String → String → App env (Option (ℕ × env.Json))
  lookup endpoint key request_hash = do
    existing ← Repo.get env endpoint key
    replayed request_hash existing

  -- `ttl` is in microseconds.
  unfoldable pub store : String → String → String → ℕ → env.Json → ℕ → App env Unit
  store endpoint key request_hash status_code response_body ttl = do
    t ← now env
    Repo.insert env (record {
      endpoint = endpoint;
      key = key;
      request_hash = request_hash;
      response_status = status_code;
      response_body = response_body;
      expires_at = utc (t + ttl);
    })
    pure tt
