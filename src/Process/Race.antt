-- ===== src/Process/Race.antt =====
-- Threads that find no session factory at the same time (app/db/session.py, `_ensure_factory`).
use hub_meta_conversion_serv.Base.{
  ℕ, zero, suc, ◌+◌, ◌≡◌, refl, sym, ap, ◌∙◌, arith, true, none, some, List, [], ◌∷◌, ◌++◌, length,
}
use mathlib.Core.Option
use hub_meta_conversion_serv.Config.{Settings}
use hub_meta_conversion_serv.Process.{Engine, Process, Platform, build_missing, new_engine, dispose}
use hub_meta_conversion_serv.Process.Owned.{Owns}
use hub_meta_conversion_serv.Process.Ready.{settings_in, connected, missing_factory-returns}

module _ (platform : Platform) where
  -- That many threads have passed the test `_session_factory is None`, and go on one after the other.
  unfoldable pub race : ℕ → Process → Process
  race zero p = p
  race (suc n) p = race n (build_missing platform none p).1

  module _ (settings : Settings)
      (accepted : platform.accepts_url settings.database_url ≡ true) where
    race-step :
        (n : ℕ) (p : Process)
        → settings_in platform p ≡ some settings
        → race (suc n) p ≡ race n (connected platform settings p)
    unfolding race
    race-step n p h = ap (λ r. race n r.1) (missing_factory-returns platform settings p h accepted)

    length-snoc : (l : List Engine) (e : Engine) → length (l ++ e ∷ []) ≡ suc (length l)
    length-snoc [] e = refl
    length-snoc (x ∷ l) e = ap suc (length-snoc l e)

    -- Each of them creates an engine, and none disposes of one.
    race-counts :
        (n : ℕ) (p : Process)
        → settings_in platform p ≡ some settings
        → (length (race n p).created ≡ n + length p.created) × ((race n p).disposed ≡ p.disposed)
    unfolding race
    race-counts zero p h = (omega arith, refl)
    race-counts (suc n) p h =
        let q = connected platform settings p in
        let (created, disposed) = race-counts n q refl in
        let one = length-snoc p.created (new_engine platform settings p) in
        rw (race-step n p h) (created ∙ ap (λ k. n + k) one ∙ omega arith, disposed)

    race-engine :
        (n : ℕ) (p : Process)
        → settings_in platform p ≡ some settings
        → (e : Engine) × ((race (suc n) p).engine ≡ some e)
    unfolding race
    race-engine zero p h = rw (race-step zero p h) (new_engine platform settings p, refl)
    race-engine (suc n) p h =
        rw (race-step (suc n) p h) (race-engine n (connected platform settings p) refl)

    -- `Owns []` holds, there is no session factory, the settings can be read, and `create_engine`
    -- accepts their URL. Once n + 1 threads that have all found no factory have gone on, one after
    -- the other, n more engines were created than are in use or disposed of: n engines are lost.
    -- In particular none is lost when one thread goes on alone.
    pub racing_threads_lose :
        (n : ℕ) (p : Process)
        → Owns [] p
        → p.session_factory ≡ none
        → settings_in platform p ≡ some settings
        → let p' = race (suc n) p in length p'.created ≡ n + length (dispose p'.engine p'.disposed)
    racing_threads_lose n p owns missing h =
        let (counted, kept) = race-counts (suc n) p h in
        let (e, current) = race-engine n p h in
        let idle : p.engine ≡ none = sym owns.factory ∙ ap (Option.map (λ f. f.bind)) missing in
        let before = owns.engines ∙ ap (λ o. dispose o p.disposed) idle in
        rw (current, kept, length-snoc p.disposed e)
          (counted ∙ ap (λ l. suc n + length l) before ∙ omega arith)
