-- ===== src/Meta/Client.antt =====
-- The HTTP client of the real adapter (app/integrations/meta/client.py), over httpx and tenacity.
pub mod Retries
pub mod Attempts
pub mod Recovery
pub mod Statuses
use Prim.Native.String.{◌++◌}
use hub_meta_conversion_serv.Base.{
  ℕ, zero, suc, ◌-◌, ◌≡◌, Bool, true, false, ◌||◌, String, Option, none, some, List, [], ◌∷◌,
  str_eq, ◌==◌, leb, if◌then◌else◌, dict_get, decimal_from,
}
use hub_meta_conversion_serv.Exec.{Exec, ◌>>=◌, ◌>>◌, pure, raise, or_raise, catch}
use hub_meta_conversion_serv.Meta.Adapter.{
  MetaError, meta_error, auth_error, rate_limited, not_found, Raised, meta, transport, other,
}

-- `J` is the type of JSON values. `json` is `none` where `response.json()` raises `ValueError`.
pub record HttpResponse (J : Type 0) : Type 0 where
  pub status_code : ℕ
  pub retry_after : Option String
  pub json : Option J
  pub text : String

pub record HttpRequest (J : Type 0) : Type 0 where
  pub method : String
  pub path : String
  pub params : Option (List (String × String))
  pub json : Option J
  pub authorization : String

-- `attempts n` is a first attempt and up to `n` more, each after an exception that `retried` accepts.
unfoldable pub attempts : {R A : Type 0} → ℕ → (Raised → Bool) → Exec R Raised A → Exec R Raised A
attempts zero retried m = m
attempts (suc n) retried m =
    let again = attempts n retried m in catch m (λ e. if retried e then again else raise e)

-- httpx, tenacity, and Python's values: `float`, `str`, and `isinstance(…, dict)` with the entries.
-- tenacity runs the call at least once; the waiting between attempts changes no state here.
pub record Web (R : Type 0) : Type 1 where
  pub Json : Type 0
  pub send : HttpRequest Json → Exec R Raised (HttpResponse Json)
  pub float_ms : String → Option ℕ
  pub str_of : Json → String
  pub dict_of : Json → Option (List (String × Json))
  pub retrying : {A : Type 0} → ℕ → (Raised → Bool) → Exec R Raised A → Exec R Raised A
  pub retrying_attempts :
      {A : Type 0} (stop : ℕ) (retried : Raised → Bool) (m : Exec R Raised A)
      → retrying stop retried m ≡ attempts (stop - 1) retried m

-- `retry_if_exception_type((MetaRateLimitedError, httpx.TransportError))`
abbrev pub is_retried : Raised → Bool
is_retried (meta (meta_error s)) = false
is_retried (meta (auth_error s)) = false
is_retried (meta (rate_limited s t)) = true
is_retried (meta (not_found s)) = false
is_retried (transport s) = true
is_retried (other s) = false

module _ {R : Type 0} (web : Web R) where
  -- `f"{err.get(key)}"`
  unfoldable pub shown : Option web.Json → String
  shown none = "None"
  shown (some v) = web.str_of v

  unfoldable pub error_text : web.Json → Option (List (String × web.Json)) → String
  unfolding shown
  error_text body none = web.str_of body
  error_text body (some []) = web.str_of body
  error_text body (some (entry ∷ entries)) =
      let err = entry ∷ entries in
      shown (dict_get str_eq "code" err)
      ++ "/"
      ++ shown (dict_get str_eq "type" err)
      ++ ": "
      ++ shown (dict_get str_eq "message" err)

  -- `isinstance(err, dict)`, for the `err` of a body.
  unfoldable pub error_entries :
      Option (List (String × web.Json)) → Option (List (String × web.Json))
  error_entries none = none
  error_entries (some body) = elim (dict_get str_eq "error" body) [
    | none ↦ none
    | some err ↦ web.dict_of err
  ]

  unfoldable pub extract_error : HttpResponse web.Json → String
  unfolding error_text error_entries decimal_from
  extract_error response = elim response.json [
    | none ↦
        if str_eq response.text ""
        then "HTTP " ++ decimal_from 11 response.status_code
        else response.text
    | some body ↦ error_text body (error_entries (web.dict_of body))
  ]

  -- `raise MetaRateLimitedError(…)` with the header.
  unfoldable pub raise_limited : Option String → Exec R Raised web.Json
  raise_limited none = raise (meta (rate_limited "Meta API rate limited" none))
  raise_limited (some header) =
      if str_eq header ""
      then raise (meta (rate_limited "Meta API rate limited" none))
      else (or_raise (web.float_ms header) (other "ValueError") >>= λ ms.
          raise (meta (rate_limited "Meta API rate limited" (some ms))))

  -- The rest of `_do_request`, on the response.
  unfoldable pub check_response : HttpResponse web.Json → Exec R Raised web.Json
  unfolding raise_limited
  check_response response =
      let code = response.status_code in
      if code == 429
      then raise_limited response.retry_after
      else if code == 401 || code == 403
      then raise (meta (auth_error (extract_error response)))
      else if code == 404
      then raise (meta (not_found (extract_error response)))
      else if leb 500 code
      then raise
          (meta (rate_limited ("Meta API " ++ decimal_from 11 code ++ ": server error") none))
      else if leb 400 code
      then raise (meta (meta_error (extract_error response)))
      else or_raise response.json (other "ValueError")

  unfoldable pub do_request :
      String
      → String
      → String
      → Option (List (String × String))
      → Option web.Json
      → Exec R Raised web.Json
  do_request method path access_token params json = do
    response ← web.send (record {
      method = method;
      path = path;
      params = params;
      json = json;
      authorization = "Bearer " ++ access_token;
    })
    check_response response

  -- `max_retries` is `settings.meta_max_retries`.
  module _ (max_retries : ℕ) where
    unfoldable pub request :
        String
        → String
        → String
        → Option (List (String × String))
        → Option web.Json
        → Exec R Raised web.Json
    request method path access_token params json =
        web.retrying max_retries is_retried (do_request method path access_token params json)

    unfoldable pub get : String → String → Option (List (String × String)) → Exec R Raised web.Json
    get path access_token params = request "GET" path access_token params none

    unfoldable pub post : String → String → web.Json → Exec R Raised web.Json
    post path access_token json = request "POST" path access_token none (some json)
