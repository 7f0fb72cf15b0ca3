-- ===== src/Api/LostRace.antt =====
-- Two requests race for one Idempotency-Key (app/repositories/idempotency.py, `insert`, under
-- app/api/routes/conversion_tags.py).
use mathlib.Core.List.{append_assoc}
use hub_meta_conversion_serv.Base.{
  false, ◌≡◌, ◌≢◌, refl, sym, ap, subst, ◌∙◌, none, some, List, [], ◌∷◌, ◌++◌, String,
}
use hub_meta_conversion_serv.Exec.{ok, ◌>>=◌}
use hub_meta_conversion_serv.Models.{Uuid, Db, IdempotencyRecord, ConversionTag}
use hub_meta_conversion_serv.Schemas.{ConversionTagCreate, conversion_tag_out}
use hub_meta_conversion_serv.Security.{TokenCipher}
use hub_meta_conversion_serv.Env.{Env}
use hub_meta_conversion_serv.Session.{World, begin, commit, rollback, close, with_session}
use hub_meta_conversion_serv.ConversionTags
use hub_meta_conversion_serv.Api.{
  tags_endpoint, request_hash, create_and_store, create_conversion_tag,
}
use hub_meta_conversion_serv.Api.Replay.{fresh_key_creates}
use hub_meta_conversion_serv.Api.Store.{store_reply-lost}
use hub_meta_conversion_serv.Requests.Keeps.{create_tag-Keeps}
use hub_meta_conversion_serv.Requests.Isolation.{
  apply_all, apply_all-snoc, Isolated, Isolated-Stable, Isolated-TagSteps,
}
use hub_meta_conversion_serv.Requests.Persistence.{record_at}

module _ (env : Env) (c : TokenCipher) (a : Uuid) (d : ConversionTagCreate) (key : String)
    (w u : World env.Remote env.Json) (tag : ConversionTag) where
  created-Isolated :
      ConversionTags.create env c a d (begin w) ≡ (ok tag, u) → Isolated w.arrivals w.committed u
  unfolding begin
  created-Isolated made =
      subst (λ p. Isolated w.arrivals w.committed p.1) made
        ((create_tag-Keeps (Isolated-Stable env w.arrivals w.committed)
            (Isolated-TagSteps env w.arrivals w.committed) c a d).at
          (begin w) ([], refl, refl))

  lost-reply :
      (f : Db env.Json → Db env.Json) (others : List (Db env.Json → Db env.Json))
      (rival rival' : IdempotencyRecord env.Json)
      → key ≢ ""
      → record_at tags_endpoint key w.committed ≡ none
      → ConversionTags.create env c a d (begin w) ≡ (ok tag, u)
      → u.arrivals ≡ f ∷ others
      → record_at tags_endpoint key (f u.working) ≡ some rival
      → record_at tags_endpoint key (f u.committed) ≡ some rival'
      → (w' : World env.Remote env.Json) × (with_session env
            (create_conversion_tag env c a d (some key))
            w
          ≡ (ok (record { status = 201; replay = false; body = conversion_tag_out tag }), w'))
        × (w'.committed ≡ f u.committed)
        × (w'.arrivals ≡ others)
  unfolding with_session close commit begin rollback create_and_store ◌>>=◌
  lost-reply f others rival rival' k free made due taken known =
      let (t, rest, lost) =
        store_reply-lost env key (request_hash env a d) (conversion_tag_out tag) u f others rival
          rival' due taken known in
      (
        record u {
          committed = f u.committed;
          working = f u.committed;
          arrivals = others;
          clock = t;
          started = t;
          ticks = rest;
        },
        ap (close env) (fresh_key_creates env c a d key (begin w) k free) ∙ rw (made, lost),
        refl,
        refl,
      )

  -- A request with an Idempotency-Key that is not empty and not on record creates its tag, and
  -- then another request's commit, with which a record for the key is found in what the
  -- transaction sees and in what is committed, arrives before its own record is inserted. The
  -- client gets 201 with the tag in the body, and the committed database is the one from before
  -- with only the commits of other requests: it holds nothing of the tag.
  pub lost_race_reports_success :
      (f : Db env.Json → Db env.Json) (others : List (Db env.Json → Db env.Json))
      (rival rival' : IdempotencyRecord env.Json)
      → key ≢ ""
      → record_at tags_endpoint key w.committed ≡ none
      → ConversionTags.create env c a d (begin w) ≡ (ok tag, u)
      → u.arrivals ≡ f ∷ others
      → record_at tags_endpoint key (f u.working) ≡ some rival
      → record_at tags_endpoint key (f u.committed) ≡ some rival'
      → (w' : World env.Remote env.Json) × (taken : List (Db env.Json → Db env.Json))
        × (with_session env (create_conversion_tag env c a d (some key)) w
            ≡ (ok (record { status = 201; replay = false; body = conversion_tag_out tag }), w'))
        × (taken ++ w'.arrivals ≡ w.arrivals)
        × (w'.committed ≡ apply_all taken w.committed)
  lost_race_reports_success f others rival rival' k free made due taken known =
      let (w', replied, same, left) =
        lost-reply f others rival rival' k free made due taken known in
      let (before, splits, was) = created-Isolated made in
      (
        w',
        before ++ f ∷ [],
        replied,
        ap (λ l. (before ++ f ∷ []) ++ l) left
            ∙ append_assoc before (f ∷ []) others
            ∙ ap (λ l. before ++ l) (sym due)
            ∙ splits,
        same ∙ ap f was ∙ sym (apply_all-snoc before f w.committed),
      )
