-- ===== src/Keyed/Step.antt =====
-- The handler of `POST /advertisers/{id}/conversion-tags` is a step of the map of keys
-- (app/api/routes/conversion_tags.py, app/services/idempotency.py).
use hub_meta_conversion_serv.Base.{
  Bool, true, false, ◌≡◌, ◌≢◌, refl, sym, ap, subst, fun_ext, ◌∙◌, Option, none, some, List, [],
  ◌∷◌, ◌++◌, String, str_eq, ◌&&◌, eq_iff, arith, Option-cases, Bool-cases, inl, inr, find,
  find-snoc_none, find-snoc_skip, if◌then◌else◌,
}
use mathlib.Core.Bool.{false≢true}
use mathlib.Core.Option
use hub_meta_conversion_serv.Exec.{Result, ok, err, pure, ◌>>=◌}
use hub_meta_conversion_serv.Models.{Uuid, IdempotencyRecord, ConversionTag}
use hub_meta_conversion_serv.Schemas.{ConversionTagCreate, conversion_tag_out}
use hub_meta_conversion_serv.Errors.{Exc}
use hub_meta_conversion_serv.Security.{TokenCipher}
use hub_meta_conversion_serv.Env.{Env}
use hub_meta_conversion_serv.Session.{World, begin, commit, rollback, close, with_session}
use hub_meta_conversion_serv.ConversionTags
use hub_meta_conversion_serv.Api.{
  tags_endpoint, TagReply, request_hash, store_reply, create_and_store, create_conversion_tag,
}
use hub_meta_conversion_serv.Api.Replay.{
  replay_returns_recorded, unreadable_record_raises, reuse_raises_conflict, fresh_key_creates,
}
use hub_meta_conversion_serv.Api.Store.{reply_record, store_reply-new}
use hub_meta_conversion_serv.Requests.Alone.{Alone, Alone-Stable, Alone-TagSteps}
use hub_meta_conversion_serv.Requests.Keeps.{create_tag-Keeps}
use hub_meta_conversion_serv.Requests.Persistence.{
  record_at, ArrivalsKeep, HasRecord, HasRecord-Stable, HasRecord-TagSteps,
}
use hub_meta_conversion_serv.Keyed.{
  entry_of, keys_of, with_key, KeyStep, first, fails, replays, unreadable, conflicts,
}

-- A new row enters its key, and no other.
keys-snoc :
    {J : Type 0} (rows : List (IdempotencyRecord J)) (row : IdempotencyRecord J)
    (key other : String)
    → row.endpoint ≡ tags_endpoint
    → row.key ≡ key
    → find (λ r. str_eq r.endpoint tags_endpoint && str_eq r.key key) rows ≡ none
    → find (λ r. str_eq r.endpoint tags_endpoint && str_eq r.key other) (rows ++ row ∷ []) ≡ (
        if str_eq key other
        then some row
        else find (λ r. str_eq r.endpoint tags_endpoint && str_eq r.key other) rows)
keys-snoc rows row key other e k free = elim (Bool-cases (str_eq key other)) [
  | inl same ↦
      let p = (eq_iff key other).0 same in
      rw same (
        find-snoc_none _ rows row
          (subst (λ x. find (λ r. str_eq r.endpoint tags_endpoint && str_eq r.key x) rows ≡ none) p
            free)
          (ground (arith, e, eq_iff row.endpoint tags_endpoint, k)))
  | inr differs ↦ rw differs (find-snoc_skip _ rows row (ground (arith, k)))
]

-- Before and after the tag is made, the keys are those that were committed.
module _ (env : Env) (c : TokenCipher) (a : Uuid) (d : ConversionTagCreate)
    (w : World env.Remote env.Json) (alone : Alone w) where
  abbrev pub made : Result Exc ConversionTag × World env.Remote env.Json
  made = ConversionTags.create env c a d (begin w)

  made-HasRecord :
      (k : String) → HasRecord tags_endpoint k (record_at tags_endpoint k w.committed) made.1
  unfolding begin
  made-HasRecord k =
      let o = record_at tags_endpoint k w.committed in
      (create_tag-Keeps (HasRecord-Stable env tags_endpoint k o)
          (HasRecord-TagSteps env tags_endpoint k o) c a d).at
        (begin w)
        (record {
          in_committed = refl;
          in_working = refl;
          in_arrivals = subst (ArrivalsKeep tags_endpoint k o) (sym alone) tt;
        })

  pub made-Alone : Alone made.1
  unfolding begin
  made-Alone = (create_tag-Keeps (Alone-Stable env) (Alone-TagSteps env) c a d).at (begin w) alone

  committed-kept : keys_of made.1.committed ≡ keys_of w.committed
  committed-kept = fun_ext (λ k. ap (Option.map entry_of) (made-HasRecord k).in_committed)

  pub working-kept :
      (k : String)
      → record_at tags_endpoint k made.1.working ≡ record_at tags_endpoint k w.committed
  working-kept k = (made-HasRecord k).in_working

  module _ (key : String) (k : key ≢ "") where
    abbrev pub hash : String
    hash = request_hash env a d

    -- How a request with the key ends, as a step of the keys.
    abbrev pub Refines : Result Exc TagReply × World env.Remote env.Json → Type 0
    Refines out =
        KeyStep env.validate_out key hash (keys_of w.committed) out.0 (keys_of out.1.committed)
        × Alone out.1

    -- The keys after the row of a first reply.
    keys-first :
        (row : IdempotencyRecord env.Json)
        → row.endpoint ≡ tags_endpoint
        → row.key ≡ key
        → record_at tags_endpoint key w.committed ≡ none
        → with_key key (entry_of row) (keys_of w.committed)
          ≡ keys_of (record made.1.working {
            idempotency_records = made.1.working.idempotency_records ++ row ∷ [];
          })
    keys-first row e q free = fun_ext (λ other.
        let grown =
          keys-snoc made.1.working.idempotency_records row key other e q
            (working-kept key ∙ free) in
        rw (grown, working-kept other)
          (if_of (str_eq key other) row (record_at tags_endpoint other w.committed)))
      where
        if_of :
            (b : Bool) (row : IdempotencyRecord env.Json) (o : Option (IdempotencyRecord env.Json))
            → (if b then some (entry_of row) else Option.map entry_of o)
              ≡ Option.map entry_of (if b then some row else o)
        if_of true row o = refl
        if_of false row o = refl

    unkeyed : record_at tags_endpoint key w.committed ≡ none → keys_of w.committed key ≡ none
    unkeyed free = ap (Option.map entry_of) free

    abbrev pub handled : Result Exc TagReply × World env.Remote env.Json
    handled = close env (create_and_store env c a d (some key) hash (begin w))

    pub failed-eq :
        (x : Exc)
        → ConversionTags.create env c a d (begin w) ≡ (err x, made.1)
        → handled ≡ (err x, rollback made.1)
    unfolding close create_and_store ◌>>=◌
    failed-eq x e = rw e refl

    pub stored-eq :
        (tag : ConversionTag) (v : World env.Remote env.Json)
        → ConversionTags.create env c a d (begin w) ≡ (ok tag, made.1)
        → store_reply env key hash (conversion_tag_out tag) made.1 ≡ (ok tt, v)
        → handled
          ≡ (ok (record { status = 201; replay = false; body = conversion_tag_out tag }), commit v)
    unfolding close create_and_store ◌>>=◌ pure
    stored-eq tag v e stored = rw (e, stored) refl

    created-Refines :
        (r : Result Exc ConversionTag)
        → ConversionTags.create env c a d (begin w) ≡ (r, made.1)
        → record_at tags_endpoint key w.committed ≡ none
        → Refines handled
    unfolding commit rollback
    created-Refines (err x) e free = subst Refines (sym (failed-eq x e)) (
      subst (KeyStep env.validate_out key hash (keys_of w.committed) (err x)) (sym committed-kept)
          (fails x (unkeyed free)),
      made-Alone,
    )
    created-Refines (ok tag) e free =
        let u = made.1 in
        let out = conversion_tag_out tag in
        let (t, rest, stored) =
          store_reply-new env key hash out u made-Alone (working-kept key ∙ free) in
        let row = reply_record env key hash out t u.next_id u.started in
        let reply : TagReply = record { status = 201; replay = false; body = out } in
        subst Refines (sym (stored-eq tag _ e stored)) (
          subst (KeyStep env.validate_out key hash (keys_of w.committed) (ok reply))
              (keys-first row refl refl free)
              (first (entry_of row) reply (unkeyed free)
                (record { same_hash = refl; same_status = refl; same_body = env.validate-dump out })
                refl),
          made-Alone,
        )

    pub handled-eq :
        record_at tags_endpoint key w.committed ≡ none
        → with_session env (create_conversion_tag env c a d (some key)) w ≡ handled
    unfolding with_session begin
    handled-eq free = ap (close env) (fresh_key_creates env c a d key (begin w) k free)

    -- A key on record: nothing is written.
    pub known-Refines :
        (r : IdempotencyRecord env.Json)
        → record_at tags_endpoint key w.committed ≡ some r
        → Refines (with_session env (create_conversion_tag env c a d (some key)) w)
    unfolding begin
    known-Refines r known =
        let at_key = ap (Option.map entry_of) known in
        elim (Bool-cases (str_eq r.request_hash hash)) [
          | inr other ↦
              let differs : r.request_hash ≢ hash =
                λ p. false≢true (sym other ∙ (eq_iff r.request_hash hash).1 p) in
              rw (reuse_raises_conflict env c a d key w r k known differs)
                (conflicts (entry_of r) at_key differs, alone)
          | inl test ↦
              let same = (eq_iff r.request_hash hash).0 test in
              elim (Option-cases (env.validate_out r.response_body)) [
                | inl n ↦
                    rw (unreadable_record_raises env c a d key w r k known same n)
                      (unreadable (entry_of r) at_key same n, alone)
                | inr (out, v) ↦ rw (replay_returns_recorded env c a d key w r out k known same v) (
                  replays (entry_of r) _ at_key
                      (record { same_hash = same; same_status = refl; same_body = v }) refl,
                  alone,
                )
              ]
        ]

    -- The handler takes a step of the keys, and no commit of another request comes due.
    pub handler-KeyStep :
        let (answer, w') = with_session env (create_conversion_tag env c a d (some key)) w in
        KeyStep env.validate_out key
          (request_hash env a d)
          (keys_of w.committed)
          answer
          (keys_of w'.committed)
        × (w'.arrivals ≡ [])
    handler-KeyStep = elim (Option-cases (record_at tags_endpoint key w.committed)) [
      | inl free ↦ rw (handled-eq free) (created-Refines made.0 refl free)
      | inr (r, known) ↦ known-Refines r known
    ]
