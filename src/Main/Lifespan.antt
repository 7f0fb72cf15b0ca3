-- ===== src/Main/Lifespan.antt =====
-- The adapter over the life of the application (app/main.py, `lifespan`).
use hub_meta_conversion_serv.Base.{
  ◌≡◌, refl, sym, ap, ◌∙◌, arith, ℕ, true, false, not, none, some, List, [], ◌∷◌, ◌++◌, any, filter,
  filter-snoc, All, ◌<◌, ◌==◌, ==_iff, if◌then◌else◌, Bool-cases, inl, inr, suc,
}
use hub_meta_conversion_serv.Exec.{ok, Exec, ◌>>=◌, pure}
use hub_meta_conversion_serv.Errors.{Exc}
use hub_meta_conversion_serv.Config.{Settings}
use hub_meta_conversion_serv.Meta.Mock.{MockMeta}
use hub_meta_conversion_serv.Main.{
  Adapter, mock, real, MetaApiClient, AppState, new_mock, client_of, new_client,
  build_default_adapter, given_or_default, close_client, shut_down, set_state, serve_and_stop,
  lifespan,
}

-- What runs while the application is up leaves the adapter and the clients as they are.
abbrev pub LeavesClients : {A : Type 0} → Exec AppState Exc A → Type 0
LeavesClients serving =
    (u : AppState)
    → ((serving u).1.meta_adapter ≡ u.meta_adapter) × ((serving u).1.open_clients ≡ u.open_clients)

abbrev pub default_adapter : Settings → ℕ → Adapter
default_adapter settings number =
    if settings.meta_use_mock then mock (new_mock settings) else real (client_of settings number)

fresh_number : (n : ℕ) (l : List ℕ) → All (λ m. m < n) l → any (λ m. n == m) l ≡ false
fresh_number n [] h = refl
fresh_number n (m ∷ l) h = ground (arith, fresh_number n l h.1, ==_iff n m)

module _ {A : Type 0} (settings : Settings) (serving : Exec AppState Exc A) (s : AppState) where
  -- `app.state` when the application is up.
  abbrev up : Adapter → ℕ → List ℕ → AppState
  up adapter clients open_clients = record {
    meta_adapter = some adapter;
    settings = some settings;
    clients = clients;
    open_clients = open_clients;
  }

  built_mock :
      settings.meta_use_mock ≡ true
      → build_default_adapter settings s ≡ (ok (mock (new_mock settings)), s)
  unfolding build_default_adapter pure
  built_mock e =
      ap
        (λ b.
          (if b
              then pure (mock (new_mock settings))
              else (new_client settings >>= λ client. pure (real client)))
            s)
        e

  abbrev with_client : AppState
  with_client = record s {
    clients = suc s.clients;
    open_clients = s.open_clients ++ s.clients ∷ [];
  }

  built_real :
      settings.meta_use_mock ≡ false
      → build_default_adapter settings s ≡ (ok (real (client_of settings s.clients)), with_client)
  unfolding build_default_adapter new_client pure ◌>>=◌
  built_real e =
      ap
        (λ b.
          (if b
              then pure (mock (new_mock settings))
              else (new_client settings >>= λ client. pure (real client)))
            s)
        e

  -- With the default adapter built, the rest of the lifespan runs on this state.
  lifespan-stop :
      (a : Adapter) (v : AppState)
      → build_default_adapter settings s ≡ (ok a, v)
      → lifespan none settings serving s ≡ serve_and_stop serving (up a v.clients v.open_clients)
  unfolding lifespan given_or_default set_state ◌>>=◌
  lifespan-stop a v e = rw e refl

  stop_mock :
      (u : AppState) (m : MockMeta)
      → (serving u).1.meta_adapter ≡ some (mock m)
      → serve_and_stop serving u ≡ serving u
  unfolding serve_and_stop shut_down
  stop_mock u m e = ap (λ o. shut_down o (serving u).0 (serving u).1) e

  stop_real :
      (u : AppState) (client : MetaApiClient)
      → (serving u).1.meta_adapter ≡ some (real client)
      → serve_and_stop serving u ≡ ((serving u).0, close_client client (serving u).1)
  unfolding serve_and_stop shut_down
  stop_real u client e = ap (λ o. shut_down o (serving u).0 (serving u).1) e

  -- The open HTTP clients have numbers that were given out, the application is created without an
  -- adapter, and what runs while it is up leaves the adapter and the clients as they are. Then it
  -- runs with the mock or the real adapter as the settings say, the lifespan ends as what ran
  -- ended, an exception included, and the HTTP clients that are open are those that were open
  -- before.
  pub lifespan_closes :
      All (λ n. n < s.clients) s.open_clients
      → LeavesClients serving
      → let out = lifespan none settings serving s in
        (u : AppState) × (u.meta_adapter ≡ some (default_adapter settings s.clients))
        × (out.0 ≡ (serving u).0)
        × (out.1.open_clients ≡ s.open_clients)
  unfolding close_client
  lifespan_closes numbered leaves = elim (Bool-cases settings.meta_use_mock) [
    | inl e ↦
        let u = up (mock (new_mock settings)) s.clients s.open_clients in
        let (same, kept) = leaves u in
        rw (lifespan-stop _ _ (built_mock e), stop_mock u _ same)
          (
            u,
            ap some (
                sym (
                  ap
                    (λ b.
                      if b then mock (new_mock settings) else real (client_of settings s.clients))
                    e)),
            refl,
            kept,
          )
    | inr e ↦
        let u =
          up (real (client_of settings s.clients)) (suc s.clients)
            (s.open_clients ++ s.clients ∷ []) in
        let (same, kept) = leaves u in
        rw (lifespan-stop _ _ (built_real e), stop_real u _ same)
          (
            u,
            ap some (
                sym (
                  ap
                    (λ b.
                      if b then mock (new_mock settings) else real (client_of settings s.clients))
                    e)),
            refl,
            ap (filter (λ n. not (s.clients == n))) kept
                ∙ filter-snoc (λ n. s.clients == n) s.open_clients s.clients
                    (fresh_number s.clients s.open_clients numbered)
                    ((==_iff s.clients s.clients).1 refl),
          )
  ]
