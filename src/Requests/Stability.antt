-- ===== src/Requests/Stability.antt =====
-- From the handlers to whole requests: what is stable is kept by a request and its session.
use hub_meta_conversion_serv.Base.{◌≡◌, refl}
use hub_meta_conversion_serv.Exec.{Result, ok, err}
use hub_meta_conversion_serv.Exec.Keeps.{Keeps}
use hub_meta_conversion_serv.Errors.{Exc}
use hub_meta_conversion_serv.Security.{TokenCipher}
use hub_meta_conversion_serv.Env.{Env}
use hub_meta_conversion_serv.Session.{World, App, begin, commit, rollback, close, with_session}
use hub_meta_conversion_serv.Session.Rules.{Stable, token_steps, TagSteps, RecordSteps}
use hub_meta_conversion_serv.Requests.{
  Request, Outcome, returned, raised, outcome, forget, create_advertiser, get_advertiser,
  list_pixels, list_conversion_tags, sync_pixels, create_conversion_tag, store_token, serve,
}
use hub_meta_conversion_serv.Requests.Keeps as K

-- What a request has done, by how it ended: `P` held when its session closed, which then committed
-- or rolled back.
abbrev pub Ended : {R J : Type 0} (P : World R J → Type 0) → Outcome × World R J → Type 0
Ended {R} {J} P (returned, w') = (w : World R J) × P w × (w' ≡ commit w)
Ended {R} {J} P (raised e, w') = (w : World R J) × P w × (w' ≡ rollback w)

module _ (env : Env) (P : World env.Remote env.Json → Type 0) where
  close-Ended :
      {A : Type 0} (r : Result Exc A) (w : World env.Remote env.Json)
      → P w
      → Ended P (let (r', w') = close env (r, w) in (outcome r', w'))
  unfolding close
  close-Ended (ok a) w p = (w, p, refl)
  close-Ended (err e) w p = (w, p, refl)

  forget-Ended :
      {A : Type 0} (m : App env A) (w : World env.Remote env.Json)
      → Keeps P m
      → P (begin w)
      → Ended P (forget env m w)
  unfolding with_session
  forget-Ended m w k p = close-Ended (m (begin w)).0 (m (begin w)).1 (k.at (begin w) p)

  pub serve-Ended :
      (c : TokenCipher) (r : Request) (w : World env.Remote env.Json)
      → Stable env P
      → TagSteps env P
      → RecordSteps env P
      → P (begin w)
      → Ended P (serve env c r w)
  unfolding serve
  serve-Ended c (create_advertiser d) w st ts rs p =
      forget-Ended _ w (K.create_advertiser-Keeps st d) p
  serve-Ended c (get_advertiser a) w st ts rs p = forget-Ended _ w (K.get_advertiser-Keeps st a) p
  serve-Ended c (list_pixels a) w st ts rs p = forget-Ended _ w (K.list_pixels-Keeps st a) p
  serve-Ended c (list_conversion_tags a) w st ts rs p =
      forget-Ended _ w (K.list_conversion_tags-Keeps st a) p
  serve-Ended c (sync_pixels a) w st ts rs p = forget-Ended _ w (K.sync_pixels-Keeps st c a) p
  serve-Ended c (create_conversion_tag a d k) w st ts rs p =
      forget-Ended _ w (K.create_conversion_tag-Keeps st ts rs c a d k) p
  serve-Ended c (store_token a t r ttl s q) w st ts rs p =
      forget-Ended _ w (K.store_initial_token-Keeps (token_steps st) c a t r ttl s q) p
