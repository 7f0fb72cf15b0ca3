-- ===== src/Requests/TagsDone.antt =====
-- The status that a client can ever find on a conversion tag, over any run of requests.
use hub_meta_conversion_serv.Base.{
  ℕ, ◌≡◌, refl, ap, none, some, List, [], ◌∷◌, String, Option, All, All-map, inl, inr, arith,
}
use hub_meta_conversion_serv.Exec.{Result, ok, err}
use hub_meta_conversion_serv.Exec.Keeps.{Keeps, Keeps-bind, Keeps-or_raise, Keeps-pure}
use hub_meta_conversion_serv.Exec.Returns.{
  Returns, Returns-strengthen, Returns_of_Keeps, Returns-bind,
}
use hub_meta_conversion_serv.Models.{Uuid, ConversionTag}
use hub_meta_conversion_serv.Schemas.{ConversionTagCreate}
use hub_meta_conversion_serv.Errors.{Exc}
use hub_meta_conversion_serv.Security.{TokenCipher}
use hub_meta_conversion_serv.Env.{Env}
use hub_meta_conversion_serv.Session.Rules.{token_steps}
use hub_meta_conversion_serv.Session.{World, App, begin, commit, rollback, close, with_session}
use hub_meta_conversion_serv.ConversionTags.Settled.{
  IsDone, Settled, Between, Within, ArrivalsSettle, Between-Stable, Between-TagSteps,
  Between-RecordSteps, Within-Stable, Within-RecordSteps,
}
use hub_meta_conversion_serv.ConversionTags.Completion.{Completed, create-Returns}
use hub_meta_conversion_serv.Api.{
  create_and_store, replay_or_create, handle_with_key, create_conversion_tag,
}
use hub_meta_conversion_serv.Requests.{
  Request, create_advertiser, get_advertiser, list_pixels, list_conversion_tags, sync_pixels,
  store_token, forget, serve, serve_all,
}
use hub_meta_conversion_serv.Requests.Keeps as K

module _ (env : Env) where
  abbrev In : World env.Remote env.Json → Type 0
  In = Within none

  create_and_store-Returns :
      (c : TokenCipher) (a : Uuid) (d : ConversionTagCreate) (k : Option String) (h : String)
      → Returns In (create_and_store env c a d k h) (λ r. In)
  unfolding create_and_store
  create_and_store-Returns c a d none h =
      Returns-bind _ _ Completed (λ r. In) (create-Returns env c a d)
        (λ tag. Returns-strengthen _ _ (λ s p. p.0) (Returns_of_Keeps _ (Keeps-pure _)))
  create_and_store-Returns c a d (some k) h =
      Returns-bind _ _ Completed (λ r. In) (create-Returns env c a d)
        (λ tag.
          Returns-strengthen _ _ (λ s p. p.0)
            (Returns_of_Keeps _ (
              Keeps-bind _ _
                (K.store_reply-Keeps (Within-Stable env none) (Within-RecordSteps env none) k h _)
                (λ u. Keeps-pure _))))

  replay_or_create-Returns :
      (c : TokenCipher) (a : Uuid) (d : ConversionTagCreate) (k h : String)
      (o : Option (ℕ × env.Json))
      → Returns In (replay_or_create env c a d k h o) (λ r. In)
  unfolding replay_or_create
  replay_or_create-Returns c a d k h none = create_and_store-Returns c a d (some k) h
  replay_or_create-Returns c a d k h (some (s, b)) =
      Returns_of_Keeps _ (Keeps-bind _ _ (Keeps-or_raise _ _) (λ out. Keeps-pure _))

  handle_with_key-Returns :
      (c : TokenCipher) (a : Uuid) (d : ConversionTagCreate) (k : Option String) (h : String)
      → Returns In (handle_with_key env c a d k h) (λ r. In)
  unfolding handle_with_key
  handle_with_key-Returns c a d none h = create_and_store-Returns c a d none h
  handle_with_key-Returns c a d (some k) h =
      Returns-bind _ _ (λ o. In) (λ r. In)
        (Returns_of_Keeps _
          (K.lookup-Keeps (Within-Stable env none) (Within-RecordSteps env none) _ _ _))
        (λ cached. replay_or_create-Returns c a d k h cached)

  create_conversion_tag-Returns :
      (c : TokenCipher) (a : Uuid) (d : ConversionTagCreate) (k : Option String)
      → Returns In (create_conversion_tag env c a d k) (λ r. In)
  unfolding create_conversion_tag
  create_conversion_tag-Returns c a d k = handle_with_key-Returns c a d _ _

  close-Between :
      {A : Type 0} (r : Result Exc A) (u : World env.Remote env.Json)
      → Between u
      → ((x : A) → r ≡ ok x → In u)
      → Between (close env (r, u)).1
  unfolding close commit rollback
  close-Between (ok x) u b k =
      let i = k x refl in
      record { committed_done = i.working_settled; arrivals_settle = b.arrivals_settle }
  close-Between (err e) u b k = record {
    committed_done = b.committed_done;
    arrivals_settle = b.arrivals_settle;
  }

  forget-Between :
      {A : Type 0} (m : App env A) (w : World env.Remote env.Json)
      → Between w
      → Keeps Between m
      → Returns In m (λ r. In)
      → Between (forget env m w).1
  unfolding with_session begin
  forget-Between m w b k r =
      let b0 : Between (begin w) = record {
        committed_done = b.committed_done;
        arrivals_settle = b.arrivals_settle;
      } in
      close-Between (m (begin w)).0 (m (begin w)).1 (k.at (begin w) b0) (λ x e.
        r.at (begin w) (record { between = b0; working_settled = b.committed_done }) x
          (m (begin w)).1 (ap (λ q. (q, (m (begin w)).1)) e))

  serve-Between :
      (c : TokenCipher) (q : Request) (w : World env.Remote env.Json)
      → Between w
      → Between (serve env c q w).1
  unfolding serve
  serve-Between c (create_advertiser d) w b =
      forget-Between _ w b (K.create_advertiser-Keeps (Between-Stable env) d)
        (Returns_of_Keeps _ (K.create_advertiser-Keeps (Within-Stable env none) d))
  serve-Between c (get_advertiser a) w b =
      forget-Between _ w b (K.get_advertiser-Keeps (Between-Stable env) a)
        (Returns_of_Keeps _ (K.get_advertiser-Keeps (Within-Stable env none) a))
  serve-Between c (list_pixels a) w b =
      forget-Between _ w b (K.list_pixels-Keeps (Between-Stable env) a)
        (Returns_of_Keeps _ (K.list_pixels-Keeps (Within-Stable env none) a))
  serve-Between c (list_conversion_tags a) w b =
      forget-Between _ w b (K.list_conversion_tags-Keeps (Between-Stable env) a)
        (Returns_of_Keeps _ (K.list_conversion_tags-Keeps (Within-Stable env none) a))
  serve-Between c (sync_pixels a) w b =
      forget-Between _ w b (K.sync_pixels-Keeps (Between-Stable env) c a)
        (Returns_of_Keeps _ (K.sync_pixels-Keeps (Within-Stable env none) c a))
  serve-Between c (Request.create_conversion_tag a d k) w b =
      forget-Between _ w b
        (K.create_conversion_tag-Keeps (Between-Stable env) (Between-TagSteps env)
          (Between-RecordSteps env) c a d k)
        (create_conversion_tag-Returns c a d k)
  serve-Between c (store_token a t r ttl s p) w b =
      forget-Between _ w b
        (K.store_initial_token-Keeps (token_steps (Between-Stable env)) c a t r ttl s p)
        (Returns_of_Keeps _
          (K.store_initial_token-Keeps (token_steps (Within-Stable env none)) c a t r ttl s p))

  serve_all-Between :
      (c : TokenCipher) (qs : List Request) (w : World env.Remote env.Json)
      → Between w
      → Between (serve_all env c qs w)
  unfolding serve_all
  serve_all-Between c [] w b = b
  serve_all-Between c (q ∷ qs) w b =
      serve_all-Between c qs (serve env c q w).1 (serve-Between c q w b)

IsDone-of : (t : ConversionTag) → Settled none t → IsDone t
IsDone-of t (inl d) = d
IsDone-of t (inr e) = ground arith

-- If every committed conversion tag is ACTIVE and carries the id of a custom conversion, and no
-- commit from elsewhere unsettles a tag, then the same holds after any requests, whether they
-- succeed or fail: no PENDING or FAILED tag is ever committed.
pub committed_tags-IsDone :
    (env : Env) (c : TokenCipher) (requests : List Request) (w : World env.Remote env.Json)
    → All IsDone w.committed.conversion_tags
    → ArrivalsSettle w.arrivals
    → All IsDone (serve_all env c requests w).committed.conversion_tags
committed_tags-IsDone env c requests w h k =
    All-map IsDone-of (serve_all env c requests w).committed.conversion_tags
      (serve_all-Between env c requests w (record {
        committed_done = All-map (λ t d. inl d) w.committed.conversion_tags h;
        arrivals_settle = k;
      })).committed_done
