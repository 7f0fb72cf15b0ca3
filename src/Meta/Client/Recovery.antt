-- ===== src/Meta/Client/Recovery.antt =====
-- How the client gets over failures that pass (`_request` of app/integrations/meta/client.py).
use Prim.Native.String.{◌++◌}
use hub_meta_conversion_serv.Base.{
  ℕ, suc, ◌-◌, ◌≤◌, ◌<◌, ◌≡◌, ◌≢◌, ◌⊎◌, refl, sym, ap, ◌∙◌, arith, true, Option, none, some, String,
  List, ◌↔◌,
}
use hub_meta_conversion_serv.Exec.{Result, ok, err, Exec, ◌>>=◌}
use hub_meta_conversion_serv.Meta.Adapter.{MetaError, Raised, meta, transport, other}
use hub_meta_conversion_serv.Meta.Client.{
  HttpRequest, HttpResponse, Web, is_retried, check_response, do_request, request,
}
use hub_meta_conversion_serv.Meta.Client.Attempts.{Recovers, now, later, recovered, recovers}
use hub_meta_conversion_serv.Meta.Client.Retries.{check_stays}
use hub_meta_conversion_serv.Meta.Client.Statuses.{raised_is_retried_iff, returns_iff}

module _ {R : Type 0} (web : Web R) (q : HttpRequest web.Json) (v : web.Json) (s' : R) where
  -- From a state, that many sendings of the request fail for a time, by an error of the transport or
  -- by a status that is 429 or at least 500, and the next one is answered with that value.
  pub data Passes : ℕ → R → Type 0 where
    answered :
        (s : R) (response : HttpResponse web.Json)
        → web.send q s ≡ (ok response, s')
        → response.status_code < 400
        → response.json ≡ some v
        → Passes 0 s
    overloaded :
        (n : ℕ) (s between : R) (response : HttpResponse web.Json)
        → web.send q s ≡ (ok response, between)
        → (response.status_code ≡ 429) ⊎ (500 ≤ response.status_code)
        → Passes n between
        → Passes (suc n) s
    unreachable :
        (n : ℕ) (s between : R) (error : String)
        → web.send q s ≡ (err (transport error), between)
        → Passes n between
        → Passes (suc n) s

-- httpx raises no exception of the program, and a Retry-After header is a number.
pub record Ordinary {R : Type 0} (web : Web R) (q : HttpRequest web.Json) : Type 0 where
  pub own : (s s' : R) (e : MetaError) → web.send q s ≢ (err (meta e), s')
  pub readable :
      (s s' : R) (response : HttpResponse web.Json) (h : String)
      → web.send q s ≡ (ok response, s')
      → response.retry_after ≡ some h
      → web.float_ms h ≢ none

module _ {R : Type 0} (web : Web R) (method path access_token : String)
    (params : Option (List (String × String))) (json : Option web.Json) where
  -- The request that is sent.
  abbrev pub sent : HttpRequest web.Json
  sent = record {
    method = method;
    path = path;
    params = params;
    json = json;
    authorization = "Bearer " ++ access_token;
  }

  abbrev m : Exec R Raised web.Json
  m = do_request web method path access_token params json

  on_response :
      (s between : R) (response : HttpResponse web.Json)
      → web.send sent s ≡ (ok response, between)
      → m s ≡ check_response web response between
  unfolding do_request ◌>>=◌
  on_response s between response e = rw e refl

  on_error :
      (s between : R) (e : Raised) → web.send sent s ≡ (err e, between) → m s ≡ (err e, between)
  unfolding do_request ◌>>=◌
  on_error s between e p = rw p refl

  module _ (ordinary : Ordinary web sent) (v : web.Json) (s' : R) where
    overload-Raised :
        (s between : R) (response : HttpResponse web.Json)
        → web.send sent s ≡ (ok response, between)
        → (response.status_code ≡ 429) ⊎ (500 ≤ response.status_code)
        → (e : Raised) × (m s ≡ (err e, between)) × (is_retried e ≡ true)
    overload-Raised s between response p high =
        raised (check_response web response between).0 _ refl
      where
        raised :
            (r : Result Raised web.Json) (t : R)
            → check_response web response between ≡ (r, t)
            → (e : Raised) × (m s ≡ (err e, between)) × (is_retried e ≡ true)
        raised (ok x) t c =
            let (below, body, same) = (returns_iff web response between t x).0 c in ground arith
        raised (err e) t c =
            let stays : t ≡ between = sym (ap (λ o. o.1) c) ∙ check_stays web response between in
            (
              e,
              on_response s between response p ∙ c ∙ ap (λ x. (err e, x)) stays,
              (raised_is_retried_iff web response between t e
                    (λ h k. ordinary.readable s between response h p k) c).1
                  high,
            )

    recovers_of-Passes : (n : ℕ) (s : R) → Passes web sent v s' n s → Recovers m v s' n s
    recovers_of-Passes n s (answered t response p below body) =
        now s
          (on_response s s' response p ∙ (returns_iff web response s' s' v).1 (below, body, refl))
    recovers_of-Passes n s (overloaded i t between response p high rest) =
        let (e, failed, retried) = overload-Raised s between response p high in
        later i s between e failed retried (recovers_of-Passes i between rest)
    recovers_of-Passes n s (unreachable i t between error p rest) =
        later i s between (transport error) (on_error s between _ p) refl
          (recovers_of-Passes i between rest)

    passes_of-Recovers : (n : ℕ) (s : R) → Recovers m v s' n s → Passes web sent v s' n s
    passes_of-Recovers n s (now t e) = first (web.send sent s).0 (web.send sent s).1 refl
      where
        first :
            (r : Result Raised (HttpResponse web.Json)) (t : R)
            → web.send sent s ≡ (r, t)
            → Passes web sent v s' 0 s
        first (ok response) t p =
            let (below, body, same) =
              (returns_iff web response t s' v).0 (sym (on_response s t response p) ∙ e) in
            answered s response (p ∙ ap (λ x. (ok response, x)) same) below body
        first (err x) t p = absurd (let q = sym (on_error s t x p) ∙ e in ground arith)
    passes_of-Recovers n s (later i t between e failed retried rest) =
        first (web.send sent s).0 (web.send sent s).1 refl (passes_of-Recovers i between rest)
      where
        first :
            (r : Result Raised (HttpResponse web.Json)) (t : R)
            → web.send sent s ≡ (r, t)
            → Passes web sent v s' i between
            → Passes web sent v s' (suc i) s
        first (ok response) t p rest =
            let c = sym (on_response s t response p) ∙ failed in
            let stays : t ≡ between = sym (check_stays web response t) ∙ ap (λ o. o.1) c in
            overloaded i s between response (p ∙ ap (λ x. (ok response, x)) stays)
              ((raised_is_retried_iff web response t between e
                  (λ h k. ordinary.readable s t response h p k) c).0
                retried)
              rest
        first (err x) t p rest =
            let q = sym (on_error s t x p) ∙ failed in
            let same : Path Raised x e = ground arith in
            let stays : Path R t between = ground arith in
            by_error e (p ∙ ap (λ y. (err y, t)) same ∙ ap (λ u. (err e, u)) stays) retried rest
          where
            by_error :
                (e : Raised)
                → web.send sent s ≡ (err e, between)
                → is_retried e ≡ true
                → Passes web sent v s' i between
                → Passes web sent v s' (suc i) s
            by_error (meta e) p retried rest = absurd (ordinary.own s between e p)
            by_error (transport x) p retried rest = unreachable i s between x p rest
            by_error (other x) p retried rest = ground arith

  -- httpx raises no exception of the program, and a Retry-After header is a number. Then a call of
  -- the client returns a value, and leaves a state, exactly if the sendings of its request, with
  -- that method, path, parameters and body and the token as bearer, pass with them after a number
  -- of failures which is less than the configured number of attempts, or 0 if that is 0. `Passes`
  -- says that each failure is an error of the transport or a status that is 429 or at least 500,
  -- and that the next sending is answered with a status below 400 and that value as its JSON body.
  pub client_recovers_iff :
      (max_retries : ℕ) (reply : web.Json) (s s' : R)
      → Ordinary web sent
      → (request web max_retries method path access_token params json s ≡ (ok reply, s'))
        ↔ ((failures : ℕ) × (failures ≤ max_retries - 1) × Passes web sent reply s' failures s)
  unfolding request
  client_recovers_iff max_retries reply s s' ordinary =
      let same = ap (λ f. f s) (web.retrying_attempts max_retries is_retried m) in
      (
        λ e.
            let (k, le, r) = recovers m reply s' (max_retries - 1) s (sym same ∙ e) in
            (k, le, passes_of-Recovers ordinary reply s' k s r),
        λ (k, le, p).
            same
            ∙ recovered m reply s' (max_retries - 1) k s le
                (recovers_of-Passes ordinary reply s' k s p),
      )
