-- ===== src/Repositories/Idempotency.antt =====
-- app/repositories/idempotency.py
use hub_meta_conversion_serv.Base.{ℕ, String, Option, str_eq, ◌&&◌}
use hub_meta_conversion_serv.Exec.{◌>>=◌, ◌>>◌, raise, or_raise, catch}
use hub_meta_conversion_serv.Models.{Uuid, DateTime, IdempotencyRecord}
use hub_meta_conversion_serv.Models.Tables
use hub_meta_conversion_serv.Errors.{Exc, integrity_error, assertion_error}
use hub_meta_conversion_serv.Env.{Env}
use hub_meta_conversion_serv.Session.{App, scalar, flush_add, roll_back}

-- The keyword arguments of `insert`.
pub record Insert (J : Type 0) : Type 0 where
  pub endpoint : String
  pub key : String
  pub request_hash : String
  pub response_status : ℕ
  pub response_body : J
  pub expires_at : DateTime

abbrev pub new_record : {J : Type 0} → Insert J → Uuid → ℕ → IdempotencyRecord J
new_record i id now = record {
  id = id;
  endpoint = i.endpoint;
  key = i.key;
  request_hash = i.request_hash;
  response_status = i.response_status;
  response_body = i.response_body;
  expires_at = i.expires_at;
  created_at = now;
  updated_at = now;
}

module _ (env : Env) where
  unfoldable pub get : String → String → App env (Option (IdempotencyRecord env.Json))
  get endpoint key =
      scalar env Tables.idempotency_records (λ r. str_eq r.endpoint endpoint && str_eq r.key key)

  -- `except IntegrityError`, with its `assert`; another exception goes on.
  unfoldable pub reread : String → String → Exc → App env (IdempotencyRecord env.Json)
  reread endpoint key integrity_error = do
    roll_back env
    existing ← get endpoint key
    or_raise existing assertion_error
  reread endpoint key e = raise e

  unfoldable pub insert : Insert env.Json → App env (IdempotencyRecord env.Json)
  insert i =
      catch (flush_add env Tables.idempotency_records (new_record i)) (reread i.endpoint i.key)
