-- ===== src/Requests/Isolation.antt =====
-- The transaction around a request (app/db/session.py, `get_session`).
use mathlib.Core.List.{append_assoc}
use hub_meta_conversion_serv.Base.{ℕ, Bool, ◌≡◌, refl, sym, ap, subst, ◌∙◌, List, [], ◌∷◌, ◌++◌}
use hub_meta_conversion_serv.Models.{Uuid, Db}
use hub_meta_conversion_serv.Models.Tables
use hub_meta_conversion_serv.Models.Tables.{Table}
use hub_meta_conversion_serv.Exec.Keeps.{Keeps}
use hub_meta_conversion_serv.Errors.{Exc}
use hub_meta_conversion_serv.Security.{TokenCipher}
use hub_meta_conversion_serv.Env.{Env}
use hub_meta_conversion_serv.Session.{
  World, begin, rollback, arrive, interfere, flush_add, flush_set, call_meta, roll_back,
}
use hub_meta_conversion_serv.Session.Rules.{
  Stable, TagSteps, RecordSteps, flush_add-Keeps, now-Keeps,
}
use hub_meta_conversion_serv.Requests.{Request, Outcome, returned, raised, serve}
use hub_meta_conversion_serv.Requests.Stability.{Ended, serve-Ended}

-- The commits of other requests, in order.
abbrev pub apply_all : {J : Type 0} → List (Db J → Db J) → Db J → Db J
apply_all [] db = db
apply_all (f ∷ fs) db = apply_all fs (f db)

-- The database differs from `start` by the first of the commits in `all`, those that are due no
-- more.
abbrev pub Isolated : {R J : Type 0} → List (Db J → Db J) → Db J → World R J → Type 0
Isolated {R} {J} all start w =
    (taken : List (Db J → Db J)) × (taken ++ w.arrivals ≡ all)
    × (w.committed ≡ apply_all taken start)

pub apply_all-snoc :
    {J : Type 0} (fs : List (Db J → Db J)) (f : Db J → Db J) (db : Db J)
    → apply_all (fs ++ f ∷ []) db ≡ f (apply_all fs db)
apply_all-snoc [] f db = refl
apply_all-snoc (g ∷ fs) f db = apply_all-snoc fs f (g db)

module _ {R J : Type 0} (all : List (Db J → Db J)) (start : Db J) where
  arrive-Isolated :
      (l : List (Db J → Db J)) (w : World R J)
      → w.arrivals ≡ l
      → Isolated all start w
      → Isolated all start (arrive l w)
  unfolding arrive
  arrive-Isolated [] w e h = h
  arrive-Isolated (f ∷ rest) w e (taken, splits, same) = (
    taken ++ f ∷ [],
    append_assoc taken (f ∷ []) rest ∙ ap (λ l. taken ++ l) (sym e) ∙ splits,
    ap f same ∙ sym (apply_all-snoc taken f start),
  )

  interfere-Isolated : (w : World R J) → Isolated all start w → Isolated all start (interfere w)
  unfolding interfere
  interfere-Isolated w h = arrive-Isolated w.arrivals w refl h

module _ (env : Env) (all : List (Db env.Json → Db env.Json)) (start : Db env.Json) where
  add-Isolated :
      {A : Type 0} (t : Table env.Json A) (make : Uuid → ℕ → A)
      → Keeps (Isolated all start) (flush_add env t make)
  add-Isolated t make =
      flush_add-Keeps env t (Isolated all start) make (interfere-Isolated all start)
        (λ w row rows h e. h)

  set-Isolated :
      {A : Type 0} (t : Table env.Json A) (p : A → Bool) (f : ℕ → A → A)
      → Keeps (Isolated all start) (flush_set env t p f)
  unfolding flush_set
  set-Isolated t p f = record { at = λ w h. h }

  pub Isolated-Stable : Stable env (Isolated all start)
  unfolding call_meta roll_back rollback
  Isolated-Stable = record {
    now_keeps = now-Keeps env (Isolated all start) (λ w c l h. h);
    add_advertiser = add-Isolated Tables.advertisers;
    add_pixel = add-Isolated Tables.pixels;
    add_token = add-Isolated Tables.oauth_tokens;
    set_pixel = set-Isolated Tables.pixels;
    set_token = set-Isolated Tables.oauth_tokens;
    meta_keeps = λ A m. record { at = λ w h. h };
    roll_back_keeps = record { at = λ w h. h };
  }

  pub Isolated-TagSteps : TagSteps env (Isolated all start)
  Isolated-TagSteps = record {
    add_tag = add-Isolated Tables.conversion_tags;
    set_tag = set-Isolated Tables.conversion_tags;
  }

  Isolated-RecordSteps : RecordSteps env (Isolated all start)
  Isolated-RecordSteps = record { add_record = add-Isolated Tables.idempotency_records }

module _ (env : Env) (c : TokenCipher) (r : Request) (w : World env.Remote env.Json) where
  raised-Isolated :
      (o : Outcome × World env.Remote env.Json) (e : Exc)
      → o.0 ≡ raised e
      → Ended (Isolated w.arrivals w.committed) o
      → Isolated w.arrivals w.committed o.1 × (o.1.working ≡ o.1.committed)
  unfolding rollback
  raised-Isolated (returned, w') e h (v, k, s) = cc
  raised-Isolated (raised _, w') e h (v, k, s) =
      subst (λ u. Isolated w.arrivals w.committed u × (u.working ≡ u.committed)) (sym s) (k, refl)

  -- After a request that raised, whatever it is, the committed database is the one that the
  -- request started from with only the commits of other requests that came due meanwhile, in their
  -- order, and nothing of its transaction is pending.
  pub raised_leaves_nothing :
      (e : Exc)
      → (serve env c r w).0 ≡ raised e
      → (let w' = (serve env c r w).1 in
          (taken : List (Db env.Json → Db env.Json)) × (taken ++ w'.arrivals ≡ w.arrivals)
          × (w'.committed ≡ apply_all taken w.committed)
          × (w'.working ≡ w'.committed))
  unfolding begin
  raised_leaves_nothing e h =
      let (x, y) = raised-Isolated (serve env c r w) e h (
        serve-Ended env (Isolated w.arrivals w.committed) c r w
          (Isolated-Stable env w.arrivals w.committed)
          (Isolated-TagSteps env w.arrivals w.committed)
          (Isolated-RecordSteps env w.arrivals w.committed) ([], refl, refl)) in
      (x.0, x.1, x.2, y)
