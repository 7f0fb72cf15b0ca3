-- ===== src/Meta/Client/Statuses.antt =====
-- What a status of Meta's reply means (`_do_request` of app/integrations/meta/client.py).
use hub_meta_conversion_serv.Base.{
  ◌≡◌, ◌≢◌, ◌≤◌, ◌<◌, ◌⊎◌, ◌↔◌, refl, arith, true, Option, none, some, String,
}
use hub_meta_conversion_serv.Exec.{ok, err, ◌>>=◌, raise, or_raise}
use hub_meta_conversion_serv.Meta.Adapter.{Raised}
use hub_meta_conversion_serv.Meta.Client.{
  HttpResponse, Web, is_retried, raise_limited, check_response,
}

module _ {R : Type 0} (web : Web R) where
  limited-retried :
      (header : Option String) (s s' : R) (e : Raised)
      → ((h : String) → header ≡ some h → web.float_ms h ≢ none)
      → raise_limited web header s ≡ (err e, s')
      → is_retried e ≡ true
  unfolding raise_limited raise or_raise ◌>>=◌
  limited-retried none s s' e readable h = ground arith
  limited-retried (some x) s s' e readable h = ground (arith, readable x refl)

  -- Where a Retry-After header is a number, an exception that `_do_request` raises on a response
  -- is one that is retried exactly if the status is 429 or at least 500.
  pub raised_is_retried_iff :
      (response : HttpResponse web.Json) (s s' : R) (e : Raised)
      → ((h : String) → response.retry_after ≡ some h → web.float_ms h ≢ none)
      → check_response web response s ≡ (err e, s')
      → (is_retried e ≡ true) ↔ ((response.status_code ≡ 429) ⊎ (500 ≤ response.status_code))
  unfolding check_response raise or_raise
  raised_is_retried_iff response s s' e readable h =
      ground (arith, limited-retried response.retry_after s s' e readable)

  limited_never_returns :
      (header : Option String) (s s' : R) (v : web.Json)
      → raise_limited web header s ≡ (ok v, s')
      → ⊥
  unfolding raise_limited raise or_raise ◌>>=◌
  limited_never_returns none s s' v h = ground arith
  limited_never_returns (some x) s s' v h = ground arith

  -- On a response, `_do_request` returns a value exactly if the status is below 400 and the body
  -- reads as JSON with that value, and it changes no state.
  pub returns_iff :
      (response : HttpResponse web.Json) (s s' : R) (v : web.Json)
      → (check_response web response s ≡ (ok v, s'))
        ↔ ((response.status_code < 400) × (response.json ≡ some v) × (s ≡ s'))
  unfolding check_response raise or_raise
  returns_iff response s s' v = (
    (λ h. ground (arith, limited_never_returns response.retry_after s s' v)),
    (λ (below, body, same). ground arith),
  )
