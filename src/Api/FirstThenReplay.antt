-- ===== src/Api/FirstThenReplay.antt =====
-- An Idempotency-Key over a run of requests (app/api/routes/conversion_tags.py).
use hub_meta_conversion_serv.Base.{
  true, false, ◌≡◌, ◌≢◌, refl, sym, ap, subst, ◌∙◌, Option, none, some, List, [], ◌∷◌, ◌++◌, String,
  str_eq, ◌&&◌, eq_iff, arith, Option-cases, Bool-cases, inl, inr, find-snoc_none,
}
use mathlib.Core.Bool.{false≢true}
use hub_meta_conversion_serv.Exec.{Result, ok, err, ◌>>=◌}
use hub_meta_conversion_serv.Models.{Uuid, IdempotencyRecord, ConversionTag}
use hub_meta_conversion_serv.Models.Tables
use hub_meta_conversion_serv.Schemas.{ConversionTagCreate, ConversionTagOut, conversion_tag_out}
use hub_meta_conversion_serv.Errors.{Exc}
use hub_meta_conversion_serv.Security.{TokenCipher}
use hub_meta_conversion_serv.Env.{Env}
use hub_meta_conversion_serv.Session.{World, begin, commit, close, with_session}
use hub_meta_conversion_serv.ConversionTags
use hub_meta_conversion_serv.Api.{
  tags_endpoint, TagReply, request_hash, create_and_store, create_conversion_tag,
}
use hub_meta_conversion_serv.Api.Replay.{
  replay_returns_recorded, unreadable_record_raises, reuse_raises_conflict, fresh_key_creates,
}
use hub_meta_conversion_serv.Api.Store.{reply_record, at_time, store_reply-new}
use hub_meta_conversion_serv.Session.Rules.{with_rows}
use hub_meta_conversion_serv.Requests.{Request, serve_all}
use hub_meta_conversion_serv.Requests.Alone.{Alone, Alone-Stable, Alone-TagSteps}
use hub_meta_conversion_serv.Requests.Keeps.{create_tag-Keeps}
use hub_meta_conversion_serv.Requests.Persistence.{
  record_at, ArrivalsKeep, HasRecord-Stable, HasRecord-TagSteps, records_persist,
}

-- The database answers a replay of this request with this reply, and nobody is in the way.
abbrev Answers :
    (env : Env)
    → Uuid
    → ConversionTagCreate
    → String
    → TagReply
    → World env.Remote env.Json
    → Type 0
Answers env a d key reply w =
    (r : IdempotencyRecord env.Json) × (record_at tags_endpoint key w.committed ≡ some r)
    × (r.request_hash ≡ request_hash env a d)
    × (env.validate_out r.response_body ≡ some reply.body)
    × (r.response_status ≡ reply.status)
    × Alone w

own_key : (key : String) → (str_eq tags_endpoint tags_endpoint && str_eq key key) ≡ true
own_key key = ground (arith, eq_iff key key)

module _ (env : Env) (c : TokenCipher) (a : Uuid) (d : ConversionTagCreate) (key : String) where
  abbrev hash : String
  hash = request_hash env a d

  -- The handler after the tag was created: the reply that it gave is on record.
  created-Answers :
      (w u w' : World env.Remote env.Json) (r : Result Exc ConversionTag) (reply : TagReply)
      → ConversionTags.create env c a d w ≡ (r, u)
      → Alone u
      → record_at tags_endpoint key u.working ≡ none
      → close env (create_and_store env c a d (some key) hash w) ≡ (ok reply, w')
      → Answers env a d key reply w'
  unfolding close commit create_and_store ◌>>=◌
  created-Answers w u w' (err x) reply made alone free e = ground arith
  created-Answers w u w' (ok tag) reply made alone free e =
      let out = conversion_tag_out tag in
      let (t, rest, stored) = store_reply-new env key hash out u alone free in
      let row = reply_record env key hash out t u.next_id u.started in
      let rows = u.working.idempotency_records in
      let w0 = commit (
        with_rows Tables.idempotency_records (at_time env key hash out u t rest)
          (rows ++ row ∷ [])) in
      let reply0 : TagReply = record { status = 201; replay = false; body = out } in
      let q : Path TagReply reply0 reply = ground arith in
      let p : Path (World env.Remote env.Json) w0 w' = ground arith in
      subst (λ v. Answers env a d key reply v) p
        (subst (λ y. Answers env a d key y w0) q
          (
            row,
            find-snoc_none _ rows row free (own_key key),
            refl,
            env.validate-dump out,
            refl,
            alone,
          ))

  -- A key that is not on record before the request.
  fresh-Answers :
      (w w' : World env.Remote env.Json) (reply : TagReply)
      → key ≢ ""
      → Alone w
      → record_at tags_endpoint key w.committed ≡ none
      → with_session env (create_conversion_tag env c a d (some key)) w ≡ (ok reply, w')
      → Answers env a d key reply w'
  unfolding with_session begin
  fresh-Answers w w' reply k alone free e =
      let w0 = begin w in
      let made = ConversionTags.create env c a d w0 in
      let has = HasRecord-Stable env tags_endpoint key none in
      created-Answers w0 made.1 w' made.0 reply refl
        ((create_tag-Keeps (Alone-Stable env) (Alone-TagSteps env) c a d).at w0 alone)
        ((create_tag-Keeps has (HasRecord-TagSteps env tags_endpoint key none) c a d).at w0
          (record {
            in_committed = free;
            in_working = free;
            in_arrivals = subst (ArrivalsKeep tags_endpoint key none) (sym alone) tt;
          })).in_working
        (ap (close env) (sym (fresh_key_creates env c a d key w0 k free)) ∙ e)

  -- A key that is on record already.
  -- (a replay, or an error)
  known-Answers :
      (w w' : World env.Remote env.Json) (reply : TagReply) (r : IdempotencyRecord env.Json)
      → key ≢ ""
      → Alone w
      → record_at tags_endpoint key w.committed ≡ some r
      → with_session env (create_conversion_tag env c a d (some key)) w ≡ (ok reply, w')
      → Answers env a d key reply w'
  unfolding begin
  known-Answers w w' reply r k alone known e = elim (Bool-cases (str_eq r.request_hash hash)) [
    | inl same ↦
        readable (env.validate_out r.response_body) refl ((eq_iff r.request_hash hash).0 same)
    | inr other ↦ absurd (
        never (
          sym (
            reuse_raises_conflict env c a d key w r k known
              (λ p. false≢true (sym other ∙ (eq_iff r.request_hash hash).1 p)))
          ∙ e))
  ]
    where
      never :
          {x : Exc} {u : World env.Remote env.Json}
          → ◌≡◌ {A = Result Exc TagReply × World env.Remote env.Json} (err x, u) (ok reply, w')
          → ⊥
      never q = ground arith

      readable :
          (o : Option ConversionTagOut)
          → env.validate_out r.response_body ≡ o
          → r.request_hash ≡ hash
          → Answers env a d key reply w'
      readable none v same =
          absurd (never (sym (unreadable_record_raises env c a d key w r k known same v) ∙ e))
      readable (some out) v same =
          from_replay (sym (replay_returns_recorded env c a d key w r out k known same v) ∙ e)
        where
          from_replay :
              ◌≡◌ {A = Result Exc TagReply × World env.Remote env.Json}
                (ok (record { status = r.response_status; replay = true; body = out }), begin w)
                (ok reply, w')
              → Answers env a d key reply w'
          from_replay q =
              let p : Path (World env.Remote env.Json) (begin w) w' = ground arith in
              let b : Path TagReply
                  (record { status = r.response_status; replay = true; body = out }) reply =
                ground arith in
              subst (λ x. Answers env a d key reply x) p
                (subst (λ y. Answers env a d key y (begin w)) b (r, known, same, v, refl, alone))

  first-Answers :
      (w w' : World env.Remote env.Json) (reply : TagReply)
      → key ≢ ""
      → Alone w
      → with_session env (create_conversion_tag env c a d (some key)) w ≡ (ok reply, w')
      → Answers env a d key reply w'
  first-Answers w w' reply k alone e =
      elim (Option-cases (record_at tags_endpoint key w.committed)) [
        | inl free ↦ fresh-Answers w w' reply k alone free e
        | inr (r, known) ↦ known-Answers w w' reply r k alone known e
      ]

  -- No commit of another request is due, the Idempotency-Key is not empty, and a request to create
  -- a conversion tag with it succeeds. Then after any further requests, the same request gets the
  -- same status and body, marked as a replay, and its session leaves the world as its begin found
  -- it: the database and Meta are not touched.
  pub first_reply_is_replayed :
      (w w' : World env.Remote env.Json) (reply : TagReply) (requests : List Request)
      → key ≢ ""
      → w.arrivals ≡ []
      → with_session env (create_conversion_tag env c a d (some key)) w ≡ (ok reply, w')
      → let later = serve_all env c requests w' in
        with_session env (create_conversion_tag env c a d (some key)) later
        ≡ (ok (record reply { replay = true }), begin later)
  first_reply_is_replayed w w' reply requests k alone e =
      let (r, found, same, body, code, quiet) = first-Answers w w' reply k alone e in
      let later = serve_all env c requests w' in
      replay_returns_recorded env c a d key later r reply.body k
        (records_persist env tags_endpoint key r c requests w' found
          (subst (ArrivalsKeep tags_endpoint key (some r)) (sym quiet) tt))
        same body
      ∙ ap (λ n. (ok (record { status = n; replay = true; body = reply.body }), begin later)) code
