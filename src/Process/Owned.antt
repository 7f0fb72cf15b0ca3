-- ===== src/Process/Owned.antt =====
-- What a process owns of the database: its engine (app/db/session.py).
use mathlib.Core.Option
use hub_meta_conversion_serv.Base.{
  ◌≡◌, refl, sym, ap, ◌∙◌, Option, none, some, List, [], ◌∷◌, ◌++◌, Bool-cases, inl, inr,
}
use hub_meta_conversion_serv.Exec.{Result, ok, err, ◌>>=◌, pure, raise, gets, continue}
use hub_meta_conversion_serv.Exec.Keeps.{Keeps, Keeps-pure, Keeps-bind, Keeps-or_raise, Keeps-gets}
use hub_meta_conversion_serv.Errors.{Exc}
use hub_meta_conversion_serv.Config.{Settings}
use hub_meta_conversion_serv.Process.{
  Engine, SessionFactory, Process, Platform, load_settings, get_settings, build_engine, new_engine,
  build_missing, connect, ensure_factory, dispose,
}

-- Every engine that was created is disposed of or in use, the factory makes sessions of the engine
-- in use, and the sessions that are open are these.
pub record Owns (sessions : List Engine) (p : Process) : Type 0 where
  pub engines : p.created ≡ dispose p.engine p.disposed
  pub factory : Option.map (λ f. f.bind) p.session_factory ≡ p.engine
  pub sessions_open : p.open_sessions ≡ sessions

module _ (platform : Platform) (P : Process → Type 0)
    (any_cache : (p : Process) (o : Option Settings)
      → P p
      → P (record p { cached_settings = o })) where
  load_settings-Keeps : (o : Option Settings) → Keeps P (load_settings platform o)
  unfolding load_settings
  load_settings-Keeps none =
      Keeps-bind _ _ (Keeps-or_raise platform.environment _)
        (λ settings. record { at = λ p h. any_cache p (some settings) h })
  load_settings-Keeps (some settings) = Keeps-pure settings

  pub get_settings-Keeps : Keeps P (get_settings platform)
  unfolding get_settings
  get_settings-Keeps = Keeps-bind _ _ (Keeps-gets _) load_settings-Keeps

module _ (platform : Platform) (l : List Engine) where
  pub Owns-caching :
      (p : Process) (o : Option Settings) → Owns l p → Owns l (record p { cached_settings = o })
  Owns-caching p o h = record {
    engines = h.engines;
    factory = h.factory;
    sessions_open = h.sessions_open;
  }

  -- Before an engine is built there is none.
  abbrev Missing : Process → Type 0
  Missing p = Owns l p × (p.session_factory ≡ none)

  built-Owns :
      (r : Result Exc Settings) (p : Process)
      → Missing p
      → Owns l (continue r (λ settings. connect platform settings) p).1
  unfolding connect build_engine ◌>>=◌ pure raise
  built-Owns (err e) p h = h.0
  built-Owns (ok settings) p (h, n) =
      elim (Bool-cases (platform.accepts_url settings.database_url)) [
        | inl accepted ↦
            let idle : p.engine ≡ none = sym h.factory ∙ ap (Option.map (λ f. f.bind)) n in
            rw accepted (record {
              engines =
                  ap (λ c. c ++ new_engine platform settings p ∷ [])
                    (h.engines ∙ ap (λ o. dispose o p.disposed) idle);
              factory = refl;
              sessions_open = h.sessions_open;
            })
        | inr refused ↦ rw refused h
      ]

  build_missing-Owns :
      (o : Option SessionFactory) (p : Process)
      → Owns l p
      → p.session_factory ≡ o
      → Owns l (build_missing platform o p).1
  unfolding build_missing ◌>>=◌ pure
  build_missing-Owns (some f) p h e = h
  build_missing-Owns none p h e =
      built-Owns (get_settings platform p).0 (get_settings platform p).1
        ((get_settings-Keeps platform Missing (λ p o k. (Owns-caching p o k.0, k.1))).at p (h, e))

  pub ensure_factory-Owns : Keeps (Owns l) (ensure_factory platform)
  unfolding ensure_factory gets ◌>>=◌
  ensure_factory-Owns = record { at = λ p h. build_missing-Owns p.session_factory p h refl }
