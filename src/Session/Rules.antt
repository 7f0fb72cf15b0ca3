-- ===== src/Session/Rules.antt =====
-- What a property of the world has to survive so that every request keeps it: one field for each
-- way in which the services touch the session (app/db/session.py, app/repositories).
use hub_meta_conversion_serv.Base.{
  ℕ, suc, ◌+◌, ◌≡◌, refl, subst₂, arith, Bool, Option, none, some, List, [], ◌∷◌,
}
use hub_meta_conversion_serv.Exec.{Exec, ok}
use hub_meta_conversion_serv.Exec.Keeps.{Keeps}
use hub_meta_conversion_serv.Exec.Returns.{Returns}
use hub_meta_conversion_serv.Models.{
  Uuid, Advertiser, Pixel, ConversionTag, OAuthToken, IdempotencyRecord,
}
use hub_meta_conversion_serv.Models.Tables
use hub_meta_conversion_serv.Models.Tables.{Table}
use hub_meta_conversion_serv.Meta.Adapter.{Raised}
use hub_meta_conversion_serv.Env.{Env}
use hub_meta_conversion_serv.Session.{
  World, interfere, keep_rows, scalar, scalars, tick, now, flush_add, flush_set, call_meta,
  roll_back,
}

pub record Stable (env : Env) (P : World env.Remote env.Json → Type 0) : Type 1 where
  pub now_keeps : Keeps P (now env)
  pub add_advertiser :
      (make : Uuid → ℕ → Advertiser) → Keeps P (flush_add env Tables.advertisers make)
  pub add_pixel : (make : Uuid → ℕ → Pixel) → Keeps P (flush_add env Tables.pixels make)
  pub add_token : (make : Uuid → ℕ → OAuthToken) → Keeps P (flush_add env Tables.oauth_tokens make)
  pub set_pixel :
      (p : Pixel → Bool) (f : ℕ → Pixel → Pixel) → Keeps P (flush_set env Tables.pixels p f)
  pub set_token :
      (p : OAuthToken → Bool) (f : ℕ → OAuthToken → OAuthToken)
      → Keeps P (flush_set env Tables.oauth_tokens p f)
  pub meta_keeps : (A : Type 0) (m : Exec env.Remote Raised A) → Keeps P (call_meta env m)
  pub roll_back_keeps : Keeps P (roll_back env)

-- What the OAuth service does.
pub record TokenSteps (env : Env) (P : World env.Remote env.Json → Type 0) : Type 0 where
  pub now_keeps : Keeps P (now env)
  pub add_token : (make : Uuid → ℕ → OAuthToken) → Keeps P (flush_add env Tables.oauth_tokens make)
  pub set_token :
      (p : OAuthToken → Bool) (f : ℕ → OAuthToken → OAuthToken)
      → Keeps P (flush_set env Tables.oauth_tokens p f)

pub token_steps :
    {env : Env} {P : World env.Remote env.Json → Type 0} → Stable env P → TokenSteps env P
token_steps st = record {
  now_keeps = st.now_keeps;
  add_token = st.add_token;
  set_token = st.set_token;
}

-- The writes of the conversion tags, and those of the idempotency records.
pub record TagSteps (env : Env) (P : World env.Remote env.Json → Type 0) : Type 0 where
  pub add_tag :
      (make : Uuid → ℕ → ConversionTag) → Keeps P (flush_add env Tables.conversion_tags make)
  pub set_tag :
      (p : ConversionTag → Bool) (f : ℕ → ConversionTag → ConversionTag)
      → Keeps P (flush_set env Tables.conversion_tags p f)

pub record RecordSteps (env : Env) (P : World env.Remote env.Json → Type 0) : Type 0 where
  pub add_record :
      (make : Uuid → ℕ → IdempotencyRecord env.Json)
      → Keeps P (flush_add env Tables.idempotency_records make)

module _ (env : Env) {P : World env.Remote env.Json → Type 0} where
  pub Keeps-scalar : {A : Type 0} (t : Table env.Json A) (p : A → Bool) → Keeps P (scalar env t p)
  unfolding scalar
  Keeps-scalar t p = record { at = λ w h. h }

  pub Keeps-scalars :
      {A : Type 0} (t : Table env.Json A) (p : A → Bool) (before : A → A → Bool)
      → Keeps P (scalars env t p before)
  unfolding scalars
  Keeps-scalars t p before = record { at = λ w h. h }

-- The world after an insert, if the engine answers with these rows.
abbrev pub with_rows : {R J A : Type 0} → Table J A → World R J → List A → World R J
with_rows t w rows = record w { working = t.store rows w.working; next_id = suc w.next_id }

module _ (env : Env) {A : Type 0} (t : Table env.Json A)
    (P : World env.Remote env.Json → Type 0) where
  keep_rows-keeps :
      (row : A) (w : World env.Remote env.Json) (o q : Option (List A))
      → q ≡ o
      → P w
      → ((rows : List A) → q ≡ some rows → P (with_rows t w rows))
      → P (keep_rows env t row w o).1
  unfolding keep_rows
  keep_rows-keeps row w none q e h k = h
  keep_rows-keeps row w (some rows) q e h k = k rows e

  -- An insert keeps what the commits of others keep, and what the new list of rows keeps.
  pub flush_add-Keeps :
      (make : Uuid → ℕ → A)
      → ((w : World env.Remote env.Json) → P w → P (interfere w))
      → ((w : World env.Remote env.Json) (row : A) (rows : List A)
          → P w
          → env.sql.insert A
              (t.refers w.working row)
              t.clash
              (t.held env.sql.numeric row)
              (t.rows w.working)
            ≡ some rows
          → P (with_rows t w rows))
      → Keeps P (flush_add env t make)
  unfolding flush_add
  flush_add-Keeps make ki kr = record {
    at = λ w h.
        let w' = interfere w in
        let row = make w'.next_id w'.started in
        keep_rows-keeps row w' _ _ refl (ki w h) (λ rows e. kr w' row rows (ki w h) e);
  }

module _ (env : Env) {A : Type 0} (t : Table env.Json A) (P : World env.Remote env.Json → Type 0)
    (Q : A → World env.Remote env.Json → Type 0) where
  keep_rows-returns :
      (row : A) (w : World env.Remote env.Json) (o q : Option (List A))
      → q ≡ o
      → ((rows : List A) → q ≡ some rows → Q row (with_rows t w rows))
      → (a : A) (w' : World env.Remote env.Json) → keep_rows env t row w o ≡ (ok a, w')
      → Q a w'
  unfolding keep_rows
  keep_rows-returns row w none q e k a w' r = ground arith
  keep_rows-returns row w (some rows) q e k a w' r =
      let x : Path A row a = ground arith in
      let y : Path (World env.Remote env.Json) (with_rows t w rows) w' = ground arith in
      subst₂ Q x y (k rows e)

  -- An insert that returns has left the engine's new list of rows.
  pub flush_add-returns :
      (make : Uuid → ℕ → A)
      → ((w : World env.Remote env.Json) → P w → P (interfere w))
      → ((w : World env.Remote env.Json) (rows : List A)
          → P w
          → let row = make w.next_id w.started in
            env.sql.insert A
                (t.refers w.working row)
                t.clash
                (t.held env.sql.numeric row)
                (t.rows w.working)
              ≡ some rows
            → Q row (with_rows t w rows))
      → Returns P (flush_add env t make) Q
  unfolding flush_add
  flush_add-returns make ki kr = record {
    at = λ w h a w' r.
        let v = interfere w in
        let row = make v.next_id v.started in
        keep_rows-returns row v _ _ refl (λ rows e. kr v rows (ki w h) e) a w' r;
  }

module _ (env : Env) (P : World env.Remote env.Json → Type 0) where
  tick-keeps :
      (l : List ℕ) (w : World env.Remote env.Json)
      → P w
      → ((c : ℕ) (l' : List ℕ) → P (record w { clock = c; ticks = l' }))
      → P (tick env l w).1
  unfolding tick
  tick-keeps [] w h k = h
  tick-keeps (t ∷ rest) w h k = k (w.clock + t) rest

  pub now-Keeps :
      ((w : World env.Remote env.Json) (c : ℕ) (l : List ℕ)
        → P w
        → P (record w { clock = c; ticks = l }))
      → Keeps P (now env)
  unfolding now
  now-Keeps k = record { at = λ w h. tick-keeps w.ticks w h (λ c l. k w c l h) }
