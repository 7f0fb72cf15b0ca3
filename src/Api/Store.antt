-- ===== src/Api/Store.antt =====
-- How `create_conversion_tag` puts its reply on record (app/services/idempotency.py, `store`, and
-- app/repositories/idempotency.py, `insert`), alone and in a race for the key.
use hub_meta_conversion_serv.Base.{
  ℕ, ◌+◌, ◌≡◌, refl, ◌∙◌, none, some, List, [], ◌∷◌, ◌++◌, String, str_eq, ◌&&◌, any,
  any_of_find-none, any_of_find-some,
}
use hub_meta_conversion_serv.Exec.{ok, ◌>>=◌, catch}
use hub_meta_conversion_serv.Models.{Uuid, Db, IdempotencyRecord}
use hub_meta_conversion_serv.Models.Tables
use hub_meta_conversion_serv.Schemas.{ConversionTagOut}
use hub_meta_conversion_serv.Env.{Env}
use hub_meta_conversion_serv.Session.{World, rollback, roll_back, scalar}
use hub_meta_conversion_serv.Session.Rules.{with_rows}
use hub_meta_conversion_serv.Session.Clock.{now-shape}
use hub_meta_conversion_serv.Session.Inserts.{
  str_eq_comm, interfere-none, interfere-some, flush_add-new, flush_add-clash,
}
use hub_meta_conversion_serv.OAuth.{utc}
use hub_meta_conversion_serv.Idempotency.{record_ttl, store}
use hub_meta_conversion_serv.Repositories.Idempotency as Repo
use hub_meta_conversion_serv.Api.{tags_endpoint, store_reply}
use hub_meta_conversion_serv.Requests.Persistence.{record_at}

-- The rows that an insert clashes with are those that the lookup of its key finds.
clash-eq-lookup :
    {J : Type 0} (endpoint key : String) (l : List (IdempotencyRecord J))
    → any (λ r. str_eq endpoint r.endpoint && str_eq key r.key) l
      ≡ any (λ r. str_eq r.endpoint endpoint && str_eq r.key key) l
clash-eq-lookup endpoint key [] = refl
clash-eq-lookup endpoint key (r ∷ l) =
    rw (str_eq_comm endpoint r.endpoint, str_eq_comm key r.key, clash-eq-lookup endpoint key l)

-- The record that a reply leaves, read at time `t`.
abbrev pub reply_record :
    (env : Env) → String → String → ConversionTagOut → ℕ → Uuid → ℕ → IdempotencyRecord env.Json
reply_record env key hash out t = Repo.new_record (record {
  endpoint = tags_endpoint;
  key = key;
  request_hash = hash;
  response_status = 201;
  response_body = env.dump_out out;
  expires_at = utc (t + record_ttl);
})

module _ (env : Env) (key hash : String) (out : ConversionTagOut)
    (w : World env.Remote env.Json) where
  abbrev pub at_time : ℕ → List ℕ → World env.Remote env.Json
  at_time t rest = record w { clock = t; ticks = rest }

  -- With the key free and nobody in the way, the reply is on record behind the older ones.
  pub store_reply-new :
      w.arrivals ≡ []
      → record_at tags_endpoint key w.working ≡ none
      → (t : ℕ) × (rest : List ℕ) × (store_reply env key hash out w ≡ (
        ok tt,
        with_rows Tables.idempotency_records (at_time t rest) (
            w.working.idempotency_records
            ++ reply_record env key hash out t w.next_id w.started ∷ []),
      ))
  unfolding store_reply store catch ◌>>=◌ Repo.insert
  store_reply-new alone free =
      let (t, rest, read) = now-shape env w in
      let w1 = at_time t rest in
      let added =
        flush_add-new env Tables.idempotency_records (reply_record env key hash out t) w1 w1
          (interfere-none w1 alone) refl
          (clash-eq-lookup tags_endpoint key w.working.idempotency_records
            ∙ any_of_find-none _ w.working.idempotency_records free) in
      (t, rest, rw (read, added))

  -- If another request commits the same key first, the call still succeeds, and everything that
  -- this transaction had written before is gone.
  pub store_reply-lost :
      (f : Db env.Json → Db env.Json) (others : List (Db env.Json → Db env.Json))
      (rival rival' : IdempotencyRecord env.Json)
      → w.arrivals ≡ f ∷ others
      → record_at tags_endpoint key (f w.working) ≡ some rival
      → record_at tags_endpoint key (f w.committed) ≡ some rival'
      → (t : ℕ) × (rest : List ℕ) × (store_reply env key hash out w ≡ (
        ok tt,
        rollback
            (record w { committed = f w.committed; arrivals = others; clock = t; ticks = rest }),
      ))
  unfolding store_reply store catch ◌>>=◌ Repo.insert Repo.reread Repo.get roll_back rollback scalar
  store_reply-lost f others rival rival' due taken known =
      let (t, rest, read) = now-shape env w in
      let w1 = at_time t rest in
      let w2 = record w1 { committed = f w.committed; working = f w.working; arrivals = others } in
      let refused =
        flush_add-clash env Tables.idempotency_records (reply_record env key hash out t) w1 w2
          (interfere-some w1 f others due)
          (clash-eq-lookup tags_endpoint key (f w.working).idempotency_records
            ∙ any_of_find-some _ (f w.working).idempotency_records rival taken) in
      (t, rest, rw (read, refused, env.sql.scalar_finds, known))
