-- ===== src/Api/Replay.antt =====
-- What a request with an Idempotency-Key does when the key is on record
-- (`create_conversion_tag` of app/api/routes/conversion_tags.py).
use hub_meta_conversion_serv.Base.{true, ◌≡◌, ◌≢◌, ap, none, some, String, eq_iff, arith}
use hub_meta_conversion_serv.Exec.{ok, err, ◌>>=◌}
use hub_meta_conversion_serv.Models.{Uuid, IdempotencyRecord}
use hub_meta_conversion_serv.Schemas.{ConversionTagCreate, ConversionTagOut}
use hub_meta_conversion_serv.Errors.{idempotency_conflict, validation_error, key_reused}
use hub_meta_conversion_serv.Security.{TokenCipher}
use hub_meta_conversion_serv.Env.{Env}
use hub_meta_conversion_serv.Session.{World, begin, commit, rollback, close, scalar, with_session}
use hub_meta_conversion_serv.Repositories.Idempotency as Repo
use hub_meta_conversion_serv.Idempotency.{replayed, lookup}
use hub_meta_conversion_serv.Api.{
  tags_endpoint, given_key, request_hash, replay_or_create, handle_with_key, create_and_store,
  create_conversion_tag,
}
use hub_meta_conversion_serv.Requests.Persistence.{record_at}

given_key-some : (key : String) → key ≢ "" → given_key (some key) ≡ some key
given_key-some key h = ground (arith, eq_iff key "")

module _ (env : Env) where
  get-record :
      (endpoint key : String) (w : World env.Remote env.Json)
      → Repo.get env endpoint key w ≡ (ok (record_at endpoint key w.working), w)
  unfolding Repo.get scalar
  get-record endpoint key w = ap (λ o. (ok o, w)) (env.sql.scalar_finds _ _ _)

  lookup-eq :
      (endpoint key hash : String) (w : World env.Remote env.Json)
      → lookup env endpoint key hash w ≡ replayed env hash (record_at endpoint key w.working) w
  unfolding lookup ◌>>=◌
  lookup-eq endpoint key hash w = rw (get-record endpoint key w)

module _ (env : Env) (c : TokenCipher) (a : Uuid) (d : ConversionTagCreate) (key : String)
    (w : World env.Remote env.Json) (r : IdempotencyRecord env.Json) where
  -- If a non-empty Idempotency-Key is on record under the hash of the request, with a body that
  -- reads back, creating a conversion tag with it returns the recorded status and body, marked as
  -- a replay, and the session leaves the world as its begin found it. The expiry of the record
  -- plays no part.
  pub replay_returns_recorded :
      (out : ConversionTagOut)
      → key ≢ ""
      → record_at tags_endpoint key w.committed ≡ some r
      → r.request_hash ≡ request_hash env a d
      → env.validate_out r.response_body ≡ some out
      → with_session env (create_conversion_tag env c a d (some key)) w
        ≡ (ok (record { status = r.response_status; replay = true; body = out }), begin w)
  unfolding with_session close begin commit create_conversion_tag handle_with_key ◌>>=◌ replayed
      replay_or_create
  replay_returns_recorded out k h e v = ground (
    arith,
    eq_iff key "",
    lookup-eq env tags_endpoint key (request_hash env a d) (begin w),
    eq_iff r.request_hash (request_hash env a d),
  )

  -- A record whose body no longer reads back ends in an error.
  pub unreadable_record_raises :
      key ≢ ""
      → record_at tags_endpoint key w.committed ≡ some r
      → r.request_hash ≡ request_hash env a d
      → env.validate_out r.response_body ≡ none
      → with_session env (create_conversion_tag env c a d (some key)) w
        ≡ (err validation_error, begin w)
  unfolding with_session close begin rollback create_conversion_tag handle_with_key ◌>>=◌ replayed
      replay_or_create
  unreadable_record_raises k h e v = ground (
    arith,
    eq_iff key "",
    lookup-eq env tags_endpoint key (request_hash env a d) (begin w),
    eq_iff r.request_hash (request_hash env a d),
  )

  -- If a non-empty Idempotency-Key is on record under another request hash than that of the
  -- request, creating a conversion tag with it raises the idempotency conflict, and the session
  -- leaves the world as its begin found it.
  pub reuse_raises_conflict :
      key ≢ ""
      → record_at tags_endpoint key w.committed ≡ some r
      → r.request_hash ≢ request_hash env a d
      → with_session env (create_conversion_tag env c a d (some key)) w
        ≡ (err (idempotency_conflict key_reused), begin w)
  unfolding with_session close begin rollback create_conversion_tag handle_with_key ◌>>=◌ replayed
  reuse_raises_conflict k h e = ground (
    arith,
    eq_iff key "",
    lookup-eq env tags_endpoint key (request_hash env a d) (begin w),
    eq_iff r.request_hash (request_hash env a d),
  )

module _ (env : Env) (c : TokenCipher) (a : Uuid) (d : ConversionTagCreate) (key : String) where
  -- A key that is not on record lets the request through.
  pub fresh_key_creates :
      (w : World env.Remote env.Json)
      → key ≢ ""
      → record_at tags_endpoint key w.working ≡ none
      → create_conversion_tag env c a d (some key) w
        ≡ create_and_store env c a d (some key) (request_hash env a d) w
  unfolding create_conversion_tag handle_with_key ◌>>=◌ replayed replay_or_create
  fresh_key_creates w k h =
      ground (arith, eq_iff key "", lookup-eq env tags_endpoint key (request_hash env a d) w)
