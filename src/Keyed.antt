-- ===== src/Keyed.antt =====
-- What an Idempotency-Key promises (README, app/services/idempotency.py): a map from keys to first
-- replies, whatever rows and sessions it is kept in.
pub mod Step
pub mod Runs
pub mod Committed
use hub_meta_conversion_serv.Base.{
  ℕ, ◌≡◌, ◌≢◌, Bool, true, false, String, Option, none, some, str_eq, if◌then◌else◌,
}
use mathlib.Core.Option
use hub_meta_conversion_serv.Exec.{Result, ok, err}
use hub_meta_conversion_serv.Errors.{Exc, idempotency_conflict, validation_error, key_reused}
use hub_meta_conversion_serv.Schemas.{ConversionTagOut}
use hub_meta_conversion_serv.Models.{IdempotencyRecord, Db}
use hub_meta_conversion_serv.Requests.Persistence.{record_at}
use hub_meta_conversion_serv.Api.{TagReply, tags_endpoint}

-- The reply that a key stands for, and the hash of the request that it was given for.
pub record Entry (J : Type 0) : Type 0 where
  pub hash : String
  pub status : ℕ
  pub body : J

abbrev pub Keys : Type 0 → Type 0
Keys J = String → Option (Entry J)

module _ {J : Type 0} where
  abbrev pub entry_of : IdempotencyRecord J → Entry J
  entry_of r = record { hash = r.request_hash; status = r.response_status; body = r.response_body }

  -- What the rows of a database come to.
  abbrev pub keys_of : Db J → Keys J
  keys_of db key = Option.map entry_of (record_at tags_endpoint key db)

  abbrev pub with_key : String → Entry J → Keys J → Keys J
  with_key key entry keys other = if str_eq key other then some entry else keys other

  -- An entry answers for a reply.
  pub record Recalls (read : J → Option ConversionTagOut) (hash : String) (entry : Entry J)
      (reply : TagReply) : Type 0 where
    pub same_hash : entry.hash ≡ hash
    pub same_status : entry.status ≡ reply.status
    pub same_body : read entry.body ≡ some reply.body

  -- The reply to a request with a key, and the map after it: a first success enters the key, a failure
  -- enters nothing, and from then on the request is answered from the map or refused.
  pub data KeyStep (read : J → Option ConversionTagOut) (key hash : String) (keys : Keys J)
      : Result Exc TagReply → Keys J → Type 0 where
    first :
        (entry : Entry J) (reply : TagReply)
        → keys key ≡ none
        → Recalls read hash entry reply
        → reply.replay ≡ false
        → KeyStep read key hash keys (ok reply) (with_key key entry keys)
    fails : (e : Exc) → keys key ≡ none → KeyStep read key hash keys (err e) keys
    replays :
        (entry : Entry J) (reply : TagReply)
        → keys key ≡ some entry
        → Recalls read hash entry reply
        → reply.replay ≡ true
        → KeyStep read key hash keys (ok reply) keys
    unreadable :
        (entry : Entry J)
        → keys key ≡ some entry
        → entry.hash ≡ hash
        → read entry.body ≡ none
        → KeyStep read key hash keys (err validation_error) keys
    conflicts :
        (entry : Entry J)
        → keys key ≡ some entry
        → entry.hash ≢ hash
        → KeyStep read key hash keys (err (idempotency_conflict key_reused)) keys
