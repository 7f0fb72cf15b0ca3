-- ===== src/OAuth/Freshness.antt =====
-- The expiry of what `get_access_token` of app/services/oauth_service.py hands out.
use hub_meta_conversion_serv.Base.{
  ℕ, ◌+◌, ◌<◌, ◌≡◌, refl, sym, subst, ◌∙◌, arith, Bool, true, false, Option, none, some, String,
  ltb, if◌then◌else◌, List, [], ◌∷◌,
}
use hub_meta_conversion_serv.Exec.{ok}
use hub_meta_conversion_serv.Exec.Keeps.{Keeps, Keeps-pure, Keeps-bind, Keeps-or_raise}
use hub_meta_conversion_serv.Exec.Returns.{Returns, Returns_of_Keeps, Returns-bind, Returns-pure}
use hub_meta_conversion_serv.Models.{Uuid, Db, OAuthToken}
use hub_meta_conversion_serv.Models.Tables
use hub_meta_conversion_serv.Security.{TokenCipher}
use hub_meta_conversion_serv.Env.{Env}
use hub_meta_conversion_serv.Session.{World, now, tick, arrive, interfere, flush_set}
use hub_meta_conversion_serv.Session.Rules.{Keeps-scalar, flush_add-Keeps}
use hub_meta_conversion_serv.Repositories.OAuthToken as Tokens
use hub_meta_conversion_serv.OAuth.{
  AccessToken, refresh_leeway, default_ttl, decrypted, cached, save_refreshed, refresh,
  refresh_with_provider, get_access_token,
}

abbrev pub Fresh : {R J : Type 0} → AccessToken → World R J → Type 0
Fresh token w =
    (w.clock + refresh_leeway < token.expires_at.micros) × (token.expires_at.aware ≡ true)

arrive-clock :
    {R J : Type 0} (l : List (Db J → Db J)) (w : World R J) → (arrive l w).clock ≡ w.clock
unfolding arrive
arrive-clock [] w = refl
arrive-clock (f ∷ l) w = refl

module _ (env : Env) where
  tick-reads :
      (l : List ℕ) (w w' : World env.Remote env.Json) (t : ℕ)
      → tick env l w ≡ (ok t, w')
      → t ≡ w'.clock
  unfolding tick
  tick-reads [] w w' t e = ground arith
  tick-reads (x ∷ l) w w' t e = ground arith

  now-Returns : Returns (λ w. Unit) (now env) (λ t w. t ≡ w.clock)
  unfolding now
  now-Returns = record { at = λ w u t w' e. tick-reads w.ticks w w' t e }

  interfere-reads : (t : ℕ) (w : World env.Remote env.Json) → t ≡ w.clock → t ≡ (interfere w).clock
  unfolding interfere
  interfere-reads t w e = e ∙ sym (arrive-clock w.arrivals w)

  write-Keeps :
      (t : ℕ) (u : Tokens.Upsert) (o : Option OAuthToken)
      → Keeps (λ w. t ≡ w.clock) (Tokens.insert_or_renew env u o)
  unfolding Tokens.insert_or_renew flush_set
  write-Keeps t u none =
      Keeps-bind _ _
        (flush_add-Keeps env Tables.oauth_tokens (λ w. t ≡ w.clock) _ (interfere-reads t)
          (λ w row rows e x. e))
        (λ x. Keeps-pure tt)
  write-Keeps t u (some existing) = record { at = λ w e. e }

  upsert-Keeps : (t : ℕ) (u : Tokens.Upsert) → Keeps (λ w. t ≡ w.clock) (Tokens.upsert env u)
  unfolding Tokens.upsert Tokens.get
  upsert-Keeps t u = Keeps-bind _ _ (Keeps-scalar env _ _) (λ o. write-Keeps t u o)

  decrypted-Keeps :
      (P : World env.Remote env.Json → Type 0) (c : TokenCipher) (b : List ℕ)
      → Keeps P (decrypted env c b)
  unfolding decrypted
  decrypted-Keeps P c b = Keeps-or_raise _ _

  saved-Fresh :
      (c : TokenCipher) (a : Uuid) (p : String) (token : OAuthToken) (x : String)
      (r : Option String)
      → Returns (λ w. Unit) (save_refreshed env c a p token (x, r, default_ttl)) Fresh
  unfolding save_refreshed
  saved-Fresh c a p token x r =
      Returns-bind _ _ (λ t w. t ≡ w.clock) Fresh now-Returns
        (λ t.
          Returns-bind _ _ (λ u w. t ≡ w.clock) Fresh (Returns_of_Keeps _ (upsert-Keeps t _))
            (λ u. Returns-pure _ Fresh (λ w e. (omega arith, refl))))

  refresh-Fresh :
      (P : World env.Remote env.Json → Type 0) (c : TokenCipher) (a : Uuid) (p : String)
      (token : OAuthToken)
      → Returns P (refresh env c a p token) Fresh
  unfolding refresh refresh_with_provider
  refresh-Fresh P c a p token =
      Returns-bind _ _ (λ x w. Unit) Fresh (record { at = λ w h x w' e. tt })
        (λ encrypted.
          Returns-bind _ _ (λ x w. Unit) Fresh (record { at = λ w h x w' e. tt })
            (λ plain. saved-Fresh c a p token _ none))

  cached-Fresh :
      (c : TokenCipher) (token : OAuthToken) (t : ℕ)
      → t + refresh_leeway < token.expires_at.micros
      → Returns (λ w. t ≡ w.clock) (cached env c token) Fresh
  unfolding cached
  cached-Fresh c token t h =
      Returns-bind _ _ (λ x w. t ≡ w.clock) Fresh
        (Returns_of_Keeps _ (decrypted-Keeps _ c token.access_token_encrypted))
        (λ x.
          Returns-pure _ Fresh
            (λ w e. (subst (λ n. n + refresh_leeway < token.expires_at.micros) e h, refl)))

  chosen-Fresh :
      (c : TokenCipher) (a : Uuid) (p : String) (token : OAuthToken) (t : ℕ) (good : Bool)
      → ltb (t + refresh_leeway) token.expires_at.micros ≡ good
      → Returns
          (λ w. t ≡ w.clock)
          (if good then cached env c token else refresh env c a p token)
          Fresh
  chosen-Fresh c a p token t true e = cached-Fresh c token t (ground arith)
  chosen-Fresh c a p token t false e = refresh-Fresh _ c a p token

  get_access_token-Returns :
      (c : TokenCipher) (a : Uuid) (p : String)
      → Returns (λ w. Unit) (get_access_token env c a p) Fresh
  unfolding get_access_token
  get_access_token-Returns c a p =
      Returns-bind _ _ (λ x w. Unit) Fresh (record { at = λ w h x w' e. tt })
        (λ found.
          Returns-bind _ _ (λ x w. Unit) Fresh (record { at = λ w h x w' e. tt })
            (λ token.
              Returns-bind _ _ (λ t w. t ≡ w.clock) Fresh now-Returns
                (λ t. chosen-Fresh c a p token t _ refl)))

  -- A token that `get_access_token` returns, whether it was stored or has been refreshed, expires
  -- more than 60 seconds after the time at which it is returned, and its expiry carries a time
  -- zone.
  pub returned_token-Fresh :
      (c : TokenCipher) (a : Uuid) (p : String) (w w' : World env.Remote env.Json)
      (token : AccessToken)
      → get_access_token env c a p w ≡ (ok token, w')
      → Fresh token w'
  returned_token-Fresh c a p w w' token e = (get_access_token-Returns c a p).at w tt token w' e
