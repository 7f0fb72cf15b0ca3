-- ===== src/Tests/Webs.antt =====
-- The theorems on the HTTP client at concrete inputs.
use Prim.Native.Nat.{max}
use hub_meta_conversion_serv.Base.{
  ℕ, zero, suc, ◌+◌, ◌-◌, ◌≡◌, ◌≢◌, ◌≤◌, ◌<◌, ◌⊎◌, ◌↔◌, refl, ap, arith, true, none, some, String,
}
use hub_meta_conversion_serv.Exec.{Result, ok, err, ◌>>=◌, raise, catch}
use hub_meta_conversion_serv.Meta.Adapter.{MetaError, Raised, meta, transport, rate_limited}
use hub_meta_conversion_serv.Meta.Client.{
  HttpRequest, HttpResponse, Web, attempts, is_retried, raise_limited, check_response, do_request,
  request,
}
use hub_meta_conversion_serv.Meta.Client.Statuses.{raised_is_retried_iff, returns_iff}
use hub_meta_conversion_serv.Meta.Client.Recovery.{Passes, Ordinary, sent, client_recovers_iff}
use hub_meta_conversion_serv.Meta.Client.Retries.{request-bounds, failed_after_all_retries}

abbrev limited : HttpResponse String
limited = record { status_code = 429; retry_after = some "2"; json = none; text = "slow down" }

abbrev good : HttpResponse String
good = record { status_code = 200; retry_after = none; json = some "{}"; text = "{}" }

-- A server that counts the requests and limits all of them.
abbrev busy : Web ℕ
busy = record {
  Json = String;
  send = λ r n. (ok limited, suc n);
  float_ms = λ s. some 2000;
  str_of = λ s. s;
  dict_of = λ s. none;
  retrying = λ stop retried m. attempts (stop - 1) retried m;
  retrying_attempts = λ stop retried m. refl;
}

busy_counts : (r : HttpRequest String) (n : ℕ) → (busy.send r n).1 ≡ suc n
busy_counts r n = refl

header_reads : (h : String) → limited.retry_after ≡ some h → busy.float_ms h ≢ none
header_reads h e = λ q. ground arith

abbrev slow_down : Raised
slow_down = meta (rate_limited "Meta API rate limited" (some 2000))

limited_raises : check_response busy limited 4 ≡ (err slow_down, 4)
unfolding check_response raise_limited ◌>>=◌ raise
limited_raises = refl

raised_is_retried_iff_example :
    (is_retried slow_down ≡ true) ↔ ((limited.status_code ≡ 429) ⊎ (500 ≤ limited.status_code))
raised_is_retried_iff_example =
    raised_is_retried_iff busy limited 4 4 slow_down header_reads limited_raises

returns_iff_example :
    (check_response busy good 4 ≡ (ok "{}", 4))
    ↔ ((good.status_code < 400) × (good.json ≡ some "{}") × (◌≡◌ {A = ℕ} 4 4))
returns_iff_example = returns_iff busy good 4 4 "{}"

request-bounds_example :
    (4 < (request busy 3 "GET" "/act_1/adspixels" "t" none none 4).1)
    × ((request busy 3 "GET" "/act_1/adspixels" "t" none none 4).1 ≤ 4 + max 1 3)
request-bounds_example =
    request-bounds busy 3 (λ n. n) busy_counts "GET" "/act_1/adspixels" "t" none none 4

busy_fails : request busy 3 "GET" "/act_1/adspixels" "t" none none 4 ≡ (err slow_down, 7)
unfolding request attempts do_request check_response raise_limited ◌>>=◌ raise catch
busy_fails = refl

failed_after_all_retries_example : 7 ≡ 4 + max 1 3
failed_after_all_retries_example =
    failed_after_all_retries busy 3 (λ n. n) busy_counts "GET" "/act_1/adspixels" "t" none none 4 7
      slow_down busy_fails refl

-- A server that cannot be reached at first, and then limits a request.
abbrev answer : ℕ → Result Raised (HttpResponse String)
answer zero = err (transport "ReadTimeout")
answer (suc zero) = ok limited
answer (suc (suc n)) = ok good

abbrev flaky : Web ℕ
flaky = record busy { send = λ r n. (answer n, suc n) }

abbrev listing : HttpRequest String
listing = sent flaky "GET" "/act_1/adspixels" "t" none none

answer_is_own : (n : ℕ) (e : MetaError) → answer n ≢ err (meta e)
answer_is_own zero e = λ q. ground arith
answer_is_own (suc zero) e = λ q. ground arith
answer_is_own (suc (suc n)) e = λ q. ground arith

flaky-Ordinary : Ordinary flaky listing
flaky-Ordinary = record {
  own = λ n n' e p. answer_is_own n e (ap (λ o. o.0) p);
  readable = λ n n' response h p q k. ground arith;
}

client_recovers_iff_example :
    (request flaky 4 "GET" "/act_1/adspixels" "t" none none 0 ≡ (ok "{}", 3))
    ↔ ((failures : ℕ) × (failures ≤ 3) × Passes flaky listing "{}" 3 failures 0)
client_recovers_iff_example =
    client_recovers_iff flaky "GET" "/act_1/adspixels" "t" none none 4 "{}" 0 3 flaky-Ordinary

flaky_recovers : request flaky 4 "GET" "/act_1/adspixels" "t" none none 0 ≡ (ok "{}", 3)
unfolding request attempts do_request check_response raise_limited ◌>>=◌ raise catch
flaky_recovers = refl
