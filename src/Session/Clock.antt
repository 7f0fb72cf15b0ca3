-- ===== src/Session/Clock.antt =====
-- Readings of the clock (`datetime.now(timezone.utc)`).
use hub_meta_conversion_serv.Base.{ℕ, ◌+◌, ◌≡◌, refl, ap, List, [], ◌∷◌}
use hub_meta_conversion_serv.Exec.{ok}
use hub_meta_conversion_serv.Env.{Env}
use hub_meta_conversion_serv.Session.{World, tick, now}

tick-shape :
    (env : Env) (l : List ℕ) (w : World env.Remote env.Json)
    → w.ticks ≡ l
    → (t : ℕ) × (rest : List ℕ) × (tick env l w ≡ (ok t, record w { clock = t; ticks = rest }))
unfolding tick
tick-shape env [] w e = (w.clock, [], ap (λ l. (ok w.clock, record w { ticks = l })) e)
tick-shape env (t ∷ rest) w e = (w.clock + t, rest, refl)

-- Reading the clock changes only the clock.
pub now-shape :
    (env : Env) (w : World env.Remote env.Json)
    → (t : ℕ) × (rest : List ℕ) × (now env w ≡ (ok t, record w { clock = t; ticks = rest }))
unfolding now
now-shape env w = tick-shape env w.ticks w refl
