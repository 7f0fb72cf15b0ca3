-- ===== src/Process/Ready.antt =====
-- When the process can open a session (app/db/session.py, `_ensure_factory`, and app/core/config.py,
-- `get_settings`).
use hub_meta_conversion_serv.Base.{
  ◌≡◌, refl, ap, ◌∙◌, arith, true, Option, none, some, Option-cases, inl, inr, ◌++◌, [], ◌∷◌,
}
use hub_meta_conversion_serv.Exec.{ok, ◌>>=◌, pure, or_raise, gets}
use hub_meta_conversion_serv.Config.{Settings}
use hub_meta_conversion_serv.Process.{
  Process, Platform, SessionFactory, load_settings, get_settings, build_engine, build_missing,
  new_engine, connect, build_session_factory, ensure_factory,
}

-- The settings that `get_settings` would return: the cached ones, or those of the environment.
abbrev pub settings_in : Platform → Process → Option Settings
settings_in platform p = elim p.cached_settings [
  | none ↦ platform.environment
  | some settings ↦ some settings
]

-- There is a session factory, or the engine can be built.
abbrev pub CanConnect : Platform → Process → Settings → Type 0
CanConnect platform p settings =
    (p.session_factory ≡ none) → platform.accepts_url settings.database_url ≡ true

module _ (platform : Platform) (settings : Settings) where
  abbrev pub caching : Process → Process
  caching p = record p { cached_settings = some settings }

  pub get_settings-returns :
      (p : Process)
      → settings_in platform p ≡ some settings
      → get_settings platform p ≡ (ok settings, caching p)
  unfolding get_settings load_settings gets pure or_raise ◌>>=◌
  get_settings-returns p h = elim (Option-cases p.cached_settings) [
    | inl n ↦ ground (arith, n)
    | inr (c, e) ↦ ground (arith, e)
  ]

  abbrev pub connected : Process → Process
  connected p = record p {
    cached_settings = some settings;
    engine = some (new_engine platform settings p);
    session_factory = some (build_session_factory platform (new_engine platform settings p));
    created = p.created ++ new_engine platform settings p ∷ [];
  }

  pub missing_factory-returns :
      (p : Process)
      → settings_in platform p ≡ some settings
      → platform.accepts_url settings.database_url ≡ true
      → build_missing platform none p
        ≡ (ok (build_session_factory platform (new_engine platform settings p)), connected p)
  unfolding build_missing connect build_engine pure ◌>>=◌
  missing_factory-returns p h k = rw (get_settings-returns p h, k) refl

  pub ensure_factory-returns :
      (p : Process)
      → settings_in platform p ≡ some settings
      → CanConnect platform p settings
      → (f : SessionFactory) × (p' : Process) × (ensure_factory platform p ≡ (ok f, p'))
        × (settings_in platform p' ≡ some settings)
  unfolding ensure_factory build_missing gets pure ◌>>=◌
  ensure_factory-returns p h k = elim (Option-cases p.session_factory) [
    | inl n ↦ (
      build_session_factory platform (new_engine platform settings p),
      connected p,
      ap (λ o. build_missing platform o p) n ∙ missing_factory-returns p h (k n),
      refl,
    )
    | inr (f, e) ↦ (f, p, ap (λ o. build_missing platform o p) e, h)
  ]
