-- ===== src/Tests/Sessions.antt =====
-- The theorems on sessions and on what they commit, at concrete inputs.
use hub_meta_conversion_serv.Base.{◌≡◌, refl, false, none, some, List, [], ◌∷◌, ◌++◌, All}
use hub_meta_conversion_serv.Exec.{Result, ok, ◌>>=◌, catch, raise}
use hub_meta_conversion_serv.Errors.{Exc, upstream, meta_failed}
use hub_meta_conversion_serv.Models.{Db, ConversionTag, active}
use hub_meta_conversion_serv.Meta.Adapter.{rate_limited}
use hub_meta_conversion_serv.Security.{encrypt, decrypt, or_unseal, unseal, xor, xor_from}
use hub_meta_conversion_serv.Security.Base64.{
  letter, bits?, urlsafe_b64encode, take_bits, move, decode_from, urlsafe_b64decode,
}
use hub_meta_conversion_serv.Schemas.{conversion_tag_out}
use hub_meta_conversion_serv.Session.{
  World, begin, rollback, interfere, arrive, tick, now, scalar, keep_rows, insert_row, flush_add,
  flush_set, call_meta, close, with_session,
}
use hub_meta_conversion_serv.Repositories.Advertiser as Advertisers
use hub_meta_conversion_serv.Repositories.ConversionTag as Tags
use hub_meta_conversion_serv.Repositories.OAuthToken as Tokens
use hub_meta_conversion_serv.OAuth.{decrypted, cached, get_access_token}
use hub_meta_conversion_serv.PixelSync.{ad_account}
use hub_meta_conversion_serv.ConversionTags
use hub_meta_conversion_serv.ConversionTags.{owned_pixel, submit, create_or_resume, on_meta_error}
use hub_meta_conversion_serv.ConversionTags.Settled.{IsDone}
use hub_meta_conversion_serv.Idempotency.{hash_request}
use hub_meta_conversion_serv.Meta.Mock.{
  MockMeta, pixels_of, fails_at, maybe_fail, new_conversion, keep_or_create, create_locked,
  create_custom_conversion,
}
use hub_meta_conversion_serv.Api.{
  request_hash, create_and_store, handle_with_key, create_conversion_tag,
}
use hub_meta_conversion_serv.Api.LostRace.{lost_race_reports_success}
use hub_meta_conversion_serv.Requests.{Request, raised, sync_pixels, serve, serve_all}
use hub_meta_conversion_serv.Requests.Isolation.{apply_all, raised_leaves_nothing}
use hub_meta_conversion_serv.Requests.TagsDone.{committed_tags-IsDone}
use hub_meta_conversion_serv.Tests.World.{Document, test_env, cipher, shop, mock, start, purchase}
use hub_meta_conversion_serv.Tests.Keys.{old_record, key_given}

-- Meta refuses every call, and another request's row arrives with the insert of the tag.
abbrev rival_commits : Db Document → Db Document
rival_commits db = record db { idempotency_records = old_record ∷ [] }

abbrev refusing : World MockMeta Document
refusing = record start {
  remote = record mock { rate_limit_every = 1 };
  arrivals = rival_commits ∷ [];
}

abbrev create_request : Request
create_request = Request.create_conversion_tag 1 purchase none

refused :
    (serve test_env cipher create_request refusing).0
    ≡ raised (upstream (meta_failed (rate_limited "mock rate limit" (some 10))))
unfolding serve with_session begin rollback close create_conversion_tag handle_with_key
    create_and_store request_hash hash_request ◌>>=◌ catch raise scalar flush_add insert_row
    keep_rows interfere arrive now tick call_meta flush_set Advertisers.get
    Tags.get_by_advertiser_and_name Tags.create Tokens.get decrypted cached get_access_token
    ad_account ConversionTags.create submit create_or_resume owned_pixel on_meta_error maybe_fail
    fails_at create_custom_conversion decrypt or_unseal unseal xor xor_from urlsafe_b64encode
    urlsafe_b64decode encrypt letter bits? decode_from move take_bits
refused = refl

raised_leaves_nothing_example :
    let w' = (serve test_env cipher create_request refusing).1 in
    (taken : List (Db Document → Db Document)) × (taken ++ w'.arrivals ≡ rival_commits ∷ [])
    × (w'.committed ≡ apply_all taken shop)
    × (w'.working ≡ w'.committed)
raised_leaves_nothing_example =
    raised_leaves_nothing test_env cipher create_request refusing
      (upstream (meta_failed (rate_limited "mock rate limit" (some 10)))) refused

abbrev pub done_tag : ConversionTag
done_tag = record {
  id = 6;
  advertiser_id = 1;
  pixel_id = 2;
  name = "old";
  event_type = "Lead";
  category = "lead";
  value = none;
  currency = none;
  rule = none;
  payload = none;
  meta_custom_conversion_id = some "cc_1";
  status = active;
  created_at = 5;
  updated_at = 5;
}

abbrev tagged : World MockMeta Document
tagged = record refusing { committed = record shop { conversion_tags = done_tag ∷ [] } }

done_tag-IsDone : IsDone done_tag
done_tag-IsDone = record { is_active = refl; conversion_id = ("cc_1", refl) }

abbrev requests : List Request
requests = create_request ∷ sync_pixels 1 ∷ []

committed_tags-IsDone_example :
    All IsDone (serve_all test_env cipher requests tagged).committed.conversion_tags
committed_tags-IsDone_example =
    committed_tags-IsDone test_env cipher requests tagged (done_tag-IsDone, tt) ((λ o db h. h), tt)

-- A race for the key "k1": nothing arrives at the insert of the tag, and the rival's record does at
-- that of the record.
abbrev nothing : Db Document → Db Document
nothing db = db

abbrev racing : World MockMeta Document
racing = record start { arrivals = nothing ∷ rival_commits ∷ [] }

abbrev tag_made : Result Exc ConversionTag × World MockMeta Document
tag_made = ConversionTags.create test_env cipher 1 purchase (begin racing)

abbrev sale_tag : ConversionTag
sale_tag = record done_tag {
  id = 10;
  name = "sale";
  event_type = "Purchase";
  category = "purchase";
  payload = some (record {
    pixel_id = "px_1";
    name = "sale";
    event_type = "Purchase";
    category = "purchase";
    value = none;
    currency = none;
    rule = none;
  });
  meta_custom_conversion_id = some "cc_act_1|sale";
  created_at = 1000;
  updated_at = 1000;
}

tag_made-eq : tag_made ≡ (ok sale_tag, tag_made.1)
unfolding begin ◌>>=◌ catch scalar flush_add insert_row keep_rows interfere arrive now tick
    call_meta flush_set Advertisers.get Tags.get_by_advertiser_and_name Tags.create Tokens.get
    decrypted cached get_access_token ad_account ConversionTags.create submit create_or_resume
    owned_pixel maybe_fail fails_at keep_or_create create_locked pixels_of new_conversion
    create_custom_conversion decrypt or_unseal unseal xor xor_from urlsafe_b64encode
    urlsafe_b64decode encrypt letter bits? decode_from move take_bits
tag_made-eq = refl

rival_due : tag_made.1.arrivals ≡ rival_commits ∷ []
unfolding begin ◌>>=◌ catch scalar flush_add insert_row keep_rows interfere arrive now tick
    call_meta flush_set Advertisers.get Tags.get_by_advertiser_and_name Tags.create Tokens.get
    decrypted cached get_access_token ad_account ConversionTags.create submit create_or_resume
    owned_pixel maybe_fail fails_at keep_or_create create_locked pixels_of new_conversion
    create_custom_conversion decrypt or_unseal unseal xor xor_from urlsafe_b64encode
    urlsafe_b64decode encrypt letter bits? decode_from move take_bits
rival_due = refl

lost_race_reports_success_example :
    (w' : World MockMeta Document) × (taken : List (Db Document → Db Document)) × (with_session
        test_env
        (create_conversion_tag test_env cipher 1 purchase (some "k1"))
        racing
      ≡ (ok (record { status = 201; replay = false; body = conversion_tag_out sale_tag }), w'))
    × (taken ++ w'.arrivals ≡ nothing ∷ rival_commits ∷ [])
    × (w'.committed ≡ apply_all taken shop)
lost_race_reports_success_example =
    lost_race_reports_success test_env cipher 1 purchase "k1" racing tag_made.1 sale_tag
      rival_commits [] old_record old_record key_given refl tag_made-eq rival_due refl refl
