-- ===== src/Keyed/Committed.antt =====
-- The tag in a reply of `create_conversion_tag` (app/api/routes/conversion_tags.py) and the rows that
-- its session commits.
use mathlib.Core.List.{Memᴰ}
use mathlib.Core.Option
use mathlib.Core.Bool.{false≢true}
use hub_meta_conversion_serv.Base.{
  ℕ, ◌⊎◌, true, false, ◌≡◌, ◌≢◌, refl, sym, ap, subst, subst₂, ◌∙◌, Option, none, some, String,
  str_eq, eq_iff, arith, Option-cases, Bool-cases, inl, inr,
}
use hub_meta_conversion_serv.Exec.{Result, ok, err, pure, ◌>>=◌}
use hub_meta_conversion_serv.Models.{Uuid, ConversionTag, active}
use hub_meta_conversion_serv.Meta.Schemas.{Decimal}
use hub_meta_conversion_serv.Schemas.{ConversionTagCreate, ConversionTagOut, conversion_tag_out}
use hub_meta_conversion_serv.Errors.{Exc}
use hub_meta_conversion_serv.Security.{TokenCipher}
use hub_meta_conversion_serv.Env.{Env}
use hub_meta_conversion_serv.Session.{World, begin, commit, close, with_session}
use hub_meta_conversion_serv.ConversionTags
use hub_meta_conversion_serv.ConversionTags.Stored.{create-Stored}
use hub_meta_conversion_serv.Api.{
  tags_endpoint, TagReply, given_key, request_hash, create_and_store, handle_with_key,
  create_conversion_tag,
}
use hub_meta_conversion_serv.Api.Store.{store_reply-new}
use hub_meta_conversion_serv.Requests.Alone.{Alone}
use hub_meta_conversion_serv.Requests.Persistence.{record_at}
use hub_meta_conversion_serv.Keyed.{
  Entry, Keys, KeyStep, entry_of, first, fails, replays, unreadable, conflicts,
}
use hub_meta_conversion_serv.Keyed.Step.{
  made, made-Alone, working-kept, failed-eq, stored-eq, handled-eq, known-Refines,
}

-- A success with a key on record is a replay.
known-replays :
    {J : Type 0} (read : J → Option ConversionTagOut) (key hash : String) (keys after : Keys J)
    (answer : Result Exc TagReply) (reply : TagReply) (entry : Entry J)
    → KeyStep read key hash keys answer after
    → answer ≡ ok reply
    → keys key ≡ some entry
    → reply.replay ≡ true
known-replays read key hash keys after answer reply entry (first en r free recalls new) q known =
    absurd (ground (arith, free, known))
known-replays read key hash keys after answer reply entry (fails e free) q known =
    absurd (ground arith)
known-replays read key hash keys after answer reply entry (replays en r at_key recalls old) q
      known =
    let p : Path TagReply r reply = ground arith in subst (λ x. x.replay ≡ true) p old
known-replays read key hash keys after answer reply entry (unreadable en at_key same broken) q
      known =
    absurd (ground arith)
known-replays read key hash keys after answer reply entry (conflicts en at_key differs) q known =
    absurd (ground arith)

-- A tag of the request, which the reply shows, and its committed row, which is that tag, or the
-- tag with its value as the column keeps it.
pub record Shows {R J : Type 0} (numeric : ℕ → ℕ → Decimal → Decimal) (a : Uuid)
    (d : ConversionTagCreate) (reply : TagReply) (w : World R J) : Type 0 where
  pub tag : ConversionTag
  pub row : ConversionTag
  pub committed : Memᴰ row w.committed.conversion_tags
  pub holds : (row ≡ tag) ⊎ (row ≡ record tag { value = Option.map (numeric 18 4) tag.value })
  pub body : reply.body ≡ conversion_tag_out tag
  pub status : reply.status ≡ 201
  pub advertiser : tag.advertiser_id ≡ a
  pub name : tag.name ≡ d.name
  pub is_active : tag.status ≡ active

module _ (env : Env) (c : TokenCipher) (a : Uuid) (d : ConversionTagCreate)
    (w w' : World env.Remote env.Json) (reply : TagReply) (alone : Alone w) where
  abbrev first_reply : ConversionTag → TagReply
  first_reply tag = record { status = 201; replay = false; body = conversion_tag_out tag }

  abbrev Out : Type 0
  Out = Result Exc TagReply × World env.Remote env.Json

  -- A commit of what `create` has left.
  shown :
      (tag : ConversionTag) (v : World env.Remote env.Json)
      → ConversionTags.create env c a d (begin w) ≡ (ok tag, (made env c a d w alone).1)
      → v.working.conversion_tags ≡ (made env c a d w alone).1.working.conversion_tags
      → ◌≡◌ {A = Out} (ok (first_reply tag), commit v) (ok reply, w')
      → Shows env.sql.numeric a d reply w'
  unfolding commit begin
  shown tag v e same q =
      let (kept, named, done) =
        (create-Stored env c a d).at (begin w) alone tag (made env c a d w alone).1 e in
      let (quiet, row, stands, holds) = kept in
      let x : Path TagReply (first_reply tag) reply = ground arith in
      let y : Path (World env.Remote env.Json) (commit v) w' = ground arith in
      subst₂ (Shows env.sql.numeric a d) x y (record {
        tag = tag;
        row = row;
        committed = subst (Memᴰ row) (sym same) stands;
        holds = holds;
        body = refl;
        status = refl;
        advertiser = named.0;
        name = named.1;
        is_active = done;
      })

  unkeyed_created :
      (r : Result Exc ConversionTag)
      → ConversionTags.create env c a d (begin w) ≡ (r, (made env c a d w alone).1)
      → close env (create_and_store env c a d none (request_hash env a d) (begin w))
        ≡ (ok reply, w')
      → Shows env.sql.numeric a d reply w'
  unfolding close create_and_store ◌>>=◌ pure
  unkeyed_created (ok tag) e q = shown tag (made env c a d w alone).1 e refl (sym (rw e refl) ∙ q)
  unkeyed_created (err x) e q = absurd (ground arith)

  -- With a key that is not on record.
  fresh-Shows :
      (key : String) (k : key ≢ "") (r : Result Exc ConversionTag)
      → ConversionTags.create env c a d (begin w) ≡ (r, (made env c a d w alone).1)
      → record_at tags_endpoint key w.committed ≡ none
      → with_session env (create_conversion_tag env c a d (some key)) w ≡ (ok reply, w')
      → Shows env.sql.numeric a d reply w'
  fresh-Shows key k (ok tag) e free q =
      let (t, rest, stored) =
        store_reply-new env key (request_hash env a d) (conversion_tag_out tag)
          (made env c a d w alone).1 (made-Alone env c a d w alone)
          (working-kept env c a d w alone key ∙ free) in
      shown tag _ e refl (
        sym (stored-eq env c a d w alone key k tag _ e stored)
        ∙ sym (handled-eq env c a d w alone key k free)
        ∙ q)
  fresh-Shows key k (err x) e free q = absurd (
      never (
        sym (failed-eq env c a d w alone key k x e)
        ∙ sym (handled-eq env c a d w alone key k free)
        ∙ q))
    where
      never :
          {x : Exc} {u : World env.Remote env.Json} → ◌≡◌ {A = Out} (err x, u) (ok reply, w') → ⊥
      never q = ground arith

  keyed-Shows :
      (key : String)
      → key ≢ ""
      → reply.replay ≡ false
      → with_session env (create_conversion_tag env c a d (some key)) w ≡ (ok reply, w')
      → Shows env.sql.numeric a d reply w'
  keyed-Shows key k new q = elim (Option-cases (record_at tags_endpoint key w.committed)) [
    | inl free ↦ fresh-Shows key k _ refl free q
    | inr (r, known) ↦
        let (step, quiet) = known-Refines env c a d w alone key k r known in
        absurd (
          false≢true (
            sym new
            ∙ known-replays env.validate_out key (request_hash env a d) _ _ _ reply (entry_of r)
                step (ap (λ x. x.0) q) (ap (Option.map entry_of) known)))
  ]

  unkeyed-Shows :
      (o : Option String)
      → given_key o ≡ none
      → with_session env (create_conversion_tag env c a d o) w ≡ (ok reply, w')
      → Shows env.sql.numeric a d reply w'
  unfolding with_session create_conversion_tag handle_with_key
  unkeyed-Shows o none_given q = unkeyed_created _ refl (
      sym (
        ap (λ k. close env (handle_with_key env c a d k (request_hash env a d) (begin w)))
          none_given)
      ∙ q)

  -- No commit of another request is due, and a request to create a conversion tag, with or without
  -- an Idempotency-Key, succeeds and is no replay. Then its status is 201 and its body shows a tag
  -- that is ACTIVE and the advertiser's under the name of the request. A row of that tag is
  -- committed: it is the tag, or the tag with its value as the column Numeric(18, 4) keeps it.
  pub success_is_committed :
      (idempotency_key : Option String)
      → with_session env (create_conversion_tag env c a d idempotency_key) w ≡ (ok reply, w')
      → reply.replay ≡ false
      → Shows env.sql.numeric a d reply w'
  success_is_committed none q new = unkeyed-Shows none refl q
  success_is_committed (some key) q new = elim (Bool-cases (str_eq key "")) [
    | inl blank ↦ unkeyed-Shows (some key) (rw blank refl) q
    | inr given ↦ keyed-Shows key (λ e. false≢true (sym given ∙ (eq_iff key "").1 e)) new q
  ]
