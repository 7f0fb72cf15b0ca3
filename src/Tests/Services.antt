-- ===== src/Tests/Services.antt =====
-- The theorems on the services at concrete inputs.
use mathlib.Core.List.{Perm}
use hub_meta_conversion_serv.Base.{
  IsSorted, leb, find, str_eq, ◌&&◌, ◌↔◌, ℕ, ◌+◌, ◌^◌, ◌≡◌, refl, true, none, some, List, [], ◌∷◌,
  All, length, map, filter, ◌==◌, if◌then◌else◌, digit, decimal_from,
}
use hub_meta_conversion_serv.Exec.{Result, ok, err, ◌>>=◌, raise}
use hub_meta_conversion_serv.Errors.{Exc, adapter_error, not_found, advertiser_missing}
use hub_meta_conversion_serv.Models.{ConversionTag, OAuthToken}
use hub_meta_conversion_serv.Models.Tables
use hub_meta_conversion_serv.Models.Tables.{has_advertiser}
use hub_meta_conversion_serv.Schemas.{tag_accepted, ConversionTagOut, conversion_tag_out}
use hub_meta_conversion_serv.Meta.Schemas.{MetaPixel}
use hub_meta_conversion_serv.Meta.Adapter.{Raised, meta, rate_limited}
use hub_meta_conversion_serv.Security.{encrypt, decrypt, or_unseal, unseal, xor, xor_from}
use hub_meta_conversion_serv.Security.Base64.{
  letter, bits?, urlsafe_b64encode, take_bits, move, decode_from, urlsafe_b64decode,
}
use hub_meta_conversion_serv.Session.{World, begin, tick, now, scalar, flush_set, with_session}
use hub_meta_conversion_serv.Session.Rules.{with_rows}
use hub_meta_conversion_serv.Repositories.OAuthToken as Tokens
use hub_meta_conversion_serv.OAuth.{
  AccessToken, meta_provider, default_ttl, utc, decrypted, cached, refresh, refresh_with_provider,
  save_refreshed, encrypt_if, get_access_token,
}
use hub_meta_conversion_serv.OAuth.Refreshed.{refresh_stores_token}
use hub_meta_conversion_serv.Schemas.Accepted.{IsValid, accepted-IsValid}
use hub_meta_conversion_serv.Tests.Ciphers.{cipher_made}
use hub_meta_conversion_serv.OAuth.Freshness.{Fresh, returned_token-Fresh}
use hub_meta_conversion_serv.PixelSync.{ad_account, upsert_all}
use hub_meta_conversion_serv.PixelSync.Resync.{known, resync_creates_none}
use hub_meta_conversion_serv.ConversionTags
use hub_meta_conversion_serv.ConversionTags.{pending_tag, meta_input}
use hub_meta_conversion_serv.ConversionTags.Outcome.{Decided, Describes, new_tag_follows_meta}
use hub_meta_conversion_serv.Meta.Mock.{MockMeta, list_pixels, maybe_fail, fails_at}
use hub_meta_conversion_serv.Api.{sync_pixels, list_conversion_tags}
use hub_meta_conversion_serv.Api.Responses.{error_reply}
use hub_meta_conversion_serv.Api.Reads.{lists_own_tags}
use hub_meta_conversion_serv.Api.SyncFailure.{sync_failure_has_no_reply}
use hub_meta_conversion_serv.Tests.World.{
  Document, test_env, cipher, shop, mock, start, purchase, advertiser, pixel, meta_pixel, token_row,
  toy_crypto,
}

-- The stored token runs out within a minute, so it is refreshed.
abbrev late : World MockMeta Document
late = record start { clock = 10 ^ 9 }

abbrev late_answer : Result Exc AccessToken × World MockMeta Document
late_answer = get_access_token test_env cipher 1 meta_provider late

abbrev new_token : AccessToken
new_token = record { value = "mock-access-41"; expires_at = utc (10 ^ 9 + 30 + default_ttl) }

late_answer-eq : late_answer ≡ (ok new_token, late_answer.1)
unfolding get_access_token Tokens.get Tokens.upsert Tokens.insert_or_renew Tokens.renewed scalar
    flush_set now tick ◌>>=◌ decrypted refresh refresh_with_provider save_refreshed encrypt_if
    cached digit decimal_from decrypt or_unseal unseal xor xor_from urlsafe_b64encode
    urlsafe_b64decode encrypt letter bits? decode_from move take_bits
late_answer-eq = refl

returned_token-Fresh_example : Fresh new_token late_answer.1
returned_token-Fresh_example =
    returned_token-Fresh test_env cipher 1 meta_provider late late_answer.1 new_token late_answer-eq

abbrev renewed_token : AccessToken
renewed_token = record { value = "mock-access-41"; expires_at = utc (10 ^ 9 + 10 + default_ttl) }

abbrev renewal : Result Exc AccessToken × World MockMeta Document
renewal = refresh test_env cipher 1 meta_provider token_row late

renewal-eq : renewal ≡ (ok renewed_token, renewal.1)
unfolding Tokens.get Tokens.upsert Tokens.insert_or_renew Tokens.renewed scalar flush_set now tick
    ◌>>=◌ decrypted refresh refresh_with_provider save_refreshed encrypt_if digit decimal_from
    decrypt or_unseal unseal xor xor_from urlsafe_b64encode urlsafe_b64decode encrypt letter bits?
    decode_from move take_bits
renewal-eq = refl

refresh_stores_token_example :
    (row : OAuthToken) × (find
        (λ r. r.advertiser_id == 1 && str_eq r.provider meta_provider)
        renewal.1.working.oauth_tokens
      ≡ some row)
    × (decrypt toy_crypto cipher row.access_token_encrypted ≡ some renewed_token.value)
    × (row.expires_at ≡ renewed_token.expires_at)
    × (row.refresh_token_encrypted ≡ token_row.refresh_token_encrypted)
    × (row.scopes ≡ token_row.scopes)
refresh_stores_token_example =
    refresh_stores_token test_env cipher 1 meta_provider "k" token_row late renewal.1 renewed_token
      cipher_made refl renewal-eq

accepted-IsValid_example : (tag_accepted purchase ≡ true) ↔ IsValid purchase
accepted-IsValid_example = accepted-IsValid purchase

abbrev two_pixels : List MetaPixel
two_pixels = meta_pixel ∷ record { id = "px_9"; name = "New"; status = "active" } ∷ []

resync_creates_none_example :
    let synced = upsert_all test_env 1 two_pixels (0, 0) start in
    (created : ℕ) × (updated : ℕ) × (synced.0 ≡ ok (created, updated))
    × (created + updated ≡ length two_pixels)
    × All (λ p. known synced.1 p.id ≡ true) two_pixels
    × ((upsert_all test_env 1 two_pixels (0, 0) synced.1).0 ≡ ok (0, length two_pixels))
resync_creates_none_example = resync_creates_none test_env 1 two_pixels start refl refl

abbrev first_tag : ConversionTag
first_tag = pending_tag 1 2 purchase 10 1000

abbrev inserted : World MockMeta Document
inserted = with_rows Tables.conversion_tags start (first_tag ∷ [])

abbrev token_read : Result Exc AccessToken × World MockMeta Document
token_read = get_access_token test_env cipher 1 meta_provider inserted

abbrev pub stored_token : AccessToken
stored_token = record { value = "tok"; expires_at = utc (10 ^ 9) }

token_read-eq : token_read ≡ (ok stored_token, token_read.1)
unfolding get_access_token Tokens.get scalar now tick ◌>>=◌ decrypted cached decrypt or_unseal
    unseal xor xor_from urlsafe_b64encode urlsafe_b64decode encrypt letter bits? decode_from move
    take_bits
token_read-eq = refl

has_account : ad_account advertiser ≡ some "act_1"
unfolding ad_account
has_account = refl

new_tag_follows_meta_example :
    Decided test_env cipher 1 purchase "act_1" pixel token_read.1 stored_token
      (λ tag. (tag.id ≡ 10) × Describes 1 purchase tag)
      (ConversionTags.create test_env cipher 1 purchase start)
new_tag_follows_meta_example =
    new_tag_follows_meta test_env cipher 1 purchase "act_1" pixel token_read.1 stored_token start
      advertiser refl refl has_account refl refl refl token_read-eq

-- Meta refuses every call.
abbrev refusing : World MockMeta Document
refusing = record start { remote = record mock { rate_limit_every = 1 } }

abbrev refusal : Raised
refusal = meta (rate_limited "mock rate limit" (some 10))

abbrev refused_read : Result Exc AccessToken × World MockMeta Document
refused_read = get_access_token test_env cipher 1 meta_provider (begin refusing)

refused_read-eq : refused_read ≡ (ok stored_token, refused_read.1)
unfolding begin get_access_token Tokens.get scalar now tick ◌>>=◌ decrypted cached decrypt or_unseal
    unseal xor xor_from urlsafe_b64encode urlsafe_b64decode encrypt letter bits? decode_from move
    take_bits
refused_read-eq = refl

refuses : (list_pixels "act_1" "tok" refused_read.1.remote).0 ≡ err refusal
unfolding begin get_access_token Tokens.get scalar now tick ◌>>=◌ decrypted cached decrypt or_unseal
    unseal xor xor_from urlsafe_b64encode urlsafe_b64decode encrypt letter bits? decode_from move
    take_bits list_pixels maybe_fail fails_at raise
refuses = refl

sync_failure_has_no_reply_example :
    ((with_session test_env (sync_pixels test_env cipher 1) refusing).0
      ≡ err (adapter_error refusal))
    × ((with_session test_env (sync_pixels test_env cipher 1) refusing).1.committed
        ≡ refused_read.1.committed)
    × (error_reply (adapter_error refusal) ≡ none)
sync_failure_has_no_reply_example =
    sync_failure_has_no_reply test_env cipher 1 refusing refused_read.1 advertiser "act_1"
      stored_token refusal refl has_account refused_read-eq refuses

abbrev with_tags : World MockMeta Document
with_tags = record start {
  committed = record shop {
    conversion_tags = first_tag ∷ record first_tag { id = 11; advertiser_id = 7 } ∷ [];
  };
}

lists_own_tags_example :
    (outs : List ConversionTagOut) × IsSorted (λ r s. leb s.created_at r.created_at) outs
    × (Perm outs (
        map conversion_tag_out
          (filter (λ r. r.advertiser_id == 1) with_tags.committed.conversion_tags)))
    × (with_session test_env (list_conversion_tags test_env 1) with_tags ≡ (
        if has_advertiser with_tags.committed 1
        then (ok outs, begin with_tags)
        else (err (not_found (advertiser_missing 1)), begin with_tags)))
lists_own_tags_example = lists_own_tags test_env 1 with_tags
