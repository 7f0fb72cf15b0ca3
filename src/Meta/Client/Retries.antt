-- ===== src/Meta/Client/Retries.antt =====
-- How often the client sends a request (`_request` of app/integrations/meta/client.py).
use Prim.Native.Nat.{max}
use hub_meta_conversion_serv.Base.{
  ℕ, zero, suc, ◌+◌, ◌-◌, ◌≤◌, ◌<◌, ◌≡◌, refl, sym, ap, ◌∙◌, arith, true, Option, none, some,
  if◌then◌else◌, String, List,
}
use hub_meta_conversion_serv.Exec.{
  Result, ok, err, Exec, ◌>>=◌, raise, or_raise, pure, catch, handle, continue,
}
use hub_meta_conversion_serv.Meta.Adapter.{Raised}
use hub_meta_conversion_serv.Meta.Client.{
  HttpRequest, HttpResponse, Web, attempts, is_retried, do_request, request, check_response,
  raise_limited,
}

module _ {R A : Type 0} (sent : R → ℕ) (m : Exec R Raised A) where
  -- Every attempt sends one request.
  abbrev pub SendsOne : Type 0
  SendsOne = (s : R) → sent (m s).1 ≡ suc (sent s)

  attempts-bounds :
      (n : ℕ) (s : R)
      → SendsOne
      → (suc (sent s) ≤ sent (attempts n is_retried m s).1)
        × (sent (attempts n is_retried m s).1 ≤ suc n + sent s)
  unfolding attempts raise catch
  attempts-bounds zero s one = ground (arith, one s)
  attempts-bounds (suc n) s one = again (m s).0 (m s).1 (one s) (attempts-bounds n (m s).1 one)
    where
      again :
          (r : Result Raised A) (s1 : R)
          → sent s1 ≡ suc (sent s)
          → (suc (sent s1) ≤ sent (attempts n is_retried m s1).1)
            × (sent (attempts n is_retried m s1).1 ≤ suc n + sent s1)
          → (suc (sent s)
              ≤ sent
                  (handle r (λ e. if is_retried e then attempts n is_retried m else raise e) s1).1)
            × (sent (handle r (λ e. if is_retried e then attempts n is_retried m else raise e) s1).1
                ≤ suc (suc n) + sent s)
      again (ok a) s1 q k = ground arith
      again (err x) s1 q k = ground arith

  exhausted :
      (n : ℕ) (s s' : R) (e : Raised)
      → SendsOne
      → attempts n is_retried m s ≡ (err e, s')
      → is_retried e ≡ true
      → sent s' ≡ suc n + sent s
  unfolding attempts raise catch
  exhausted zero s s' e one h k = ground (arith, one s)
  exhausted (suc n) s s' e one h k =
      again (m s).0 (m s).1 (one s) (λ p. exhausted n (m s).1 s' e one p k) h
    where
      again :
          (r : Result Raised A) (s1 : R)
          → sent s1 ≡ suc (sent s)
          → (attempts n is_retried m s1 ≡ (err e, s') → sent s' ≡ suc n + sent s1)
          → handle r (λ x. if is_retried x then attempts n is_retried m else raise x) s1
            ≡ (err e, s')
          → sent s' ≡ suc (suc n) + sent s
      again (ok a) s1 q rec p = ground arith
      again (err x) s1 q rec p = ground arith

module _ {R : Type 0} (web : Web R) where
  limited_stays : (header : Option String) (s : R) → (raise_limited web header s).1 ≡ s
  unfolding raise_limited raise or_raise ◌>>=◌
  limited_stays none s = refl
  limited_stays (some h) s = ground arith

  pub check_stays :
      (response : HttpResponse web.Json) (s : R) → (check_response web response s).1 ≡ s
  unfolding check_response raise or_raise pure
  check_stays response s = ground (arith, limited_stays response.retry_after s)

module _ {R : Type 0} (web : Web R) (max_retries : ℕ) (sent : R → ℕ)
    (counts : (r : HttpRequest web.Json) (s : R) → sent (web.send r s).1 ≡ suc (sent s)) where
  do_request_sends :
      (method path token : String) (params : Option (List (String × String)))
      (json : Option web.Json)
      → SendsOne sent (do_request web method path token params json)
  unfolding do_request ◌>>=◌
  do_request_sends method path token params json s = checked _ _ _ refl (counts _ s)
    where
      checked :
          (r : Result Raised (HttpResponse web.Json)) (s1 : R) (x : ℕ)
          → x ≡ suc (sent s)
          → sent s1 ≡ x
          → sent (continue r (check_response web) s1).1 ≡ suc (sent s)
      checked (ok response) s1 x p q = ap sent (check_stays web response s1) ∙ q ∙ p
      checked (err e) s1 x p q = q ∙ p

  -- If every sending of a request is counted, then a call of the client sends at least one request
  -- and at most the configured number, or one if that number is 0, however it ends.
  pub request-bounds :
      (method path token : String) (params : Option (List (String × String)))
      (json : Option web.Json) (s : R)
      → let after = sent (request web max_retries method path token params json s).1 in
        (sent s < after) × (after ≤ sent s + max 1 max_retries)
  unfolding request
  request-bounds method path token params json s =
      let m = do_request web method path token params json in
      let one = do_request_sends method path token params json in
      rw (web.retrying_attempts max_retries is_retried m) (
        let (low, high) = attempts-bounds sent m (max_retries - 1) s one in
        (omega arith, omega arith))

  -- If every sending of a request is counted, and the client ends with an exception that is
  -- retried, then it has sent exactly the configured number of requests, or one if that number is
  -- 0.
  pub failed_after_all_retries :
      (method path token : String) (params : Option (List (String × String)))
      (json : Option web.Json) (s s' : R) (e : Raised)
      → request web max_retries method path token params json s ≡ (err e, s')
      → is_retried e ≡ true
      → sent s' ≡ sent s + max 1 max_retries
  unfolding request
  failed_after_all_retries method path token params json s s' e h k =
      let m = do_request web method path token params json in
      let one = do_request_sends method path token params json in
      let q =
        exhausted sent m (max_retries - 1) s s' e one
          (ap (λ f. f s) (sym (web.retrying_attempts max_retries is_retried m)) ∙ h) k in
      omega arith
