-- ===== src/Tests/Run.antt =====
-- A request with a key, run by the definitions.
use hub_meta_conversion_serv.Base.{◌≡◌, refl, false, none, some}
use hub_meta_conversion_serv.Exec.{Result, ok, ◌>>=◌, catch}
use hub_meta_conversion_serv.Errors.{Exc}
use hub_meta_conversion_serv.Models.{active}
use hub_meta_conversion_serv.Security.{encrypt, decrypt, or_unseal, unseal, xor, xor_from}
use hub_meta_conversion_serv.Security.Base64.{
  letter, bits?, urlsafe_b64encode, take_bits, move, decode_from, urlsafe_b64decode,
}
use hub_meta_conversion_serv.Schemas.{conversion_tag_out}
use hub_meta_conversion_serv.Session.{
  World, begin, commit, interfere, tick, now, scalar, keep_rows, insert_row, flush_add, flush_set,
  call_meta, close, with_session,
}
use hub_meta_conversion_serv.Repositories.Advertiser as Advertisers
use hub_meta_conversion_serv.Repositories.ConversionTag as Tags
use hub_meta_conversion_serv.Repositories.OAuthToken as Tokens
use hub_meta_conversion_serv.Repositories.Idempotency as Records
use hub_meta_conversion_serv.OAuth.{decrypted, cached, get_access_token}
use hub_meta_conversion_serv.PixelSync.{ad_account}
use hub_meta_conversion_serv.ConversionTags
use hub_meta_conversion_serv.ConversionTags.{owned_pixel, submit, create_or_resume}
use hub_meta_conversion_serv.Idempotency.{hash_request, replayed, lookup, store}
use hub_meta_conversion_serv.Meta.Mock.{
  MockMeta, pixels_of, fails_at, maybe_fail, new_conversion, keep_or_create, create_locked,
  create_custom_conversion,
}
use hub_meta_conversion_serv.Api.{
  TagReply, request_hash, store_reply, create_and_store, replay_or_create, handle_with_key,
  create_conversion_tag,
}
use hub_meta_conversion_serv.Tests.World.{Document, test_env, cipher, start, purchase}

abbrev pub first : Result Exc TagReply × World MockMeta Document
first = with_session test_env (create_conversion_tag test_env cipher 1 purchase (some "k1")) start

abbrev pub first_reply : TagReply
first_reply = record {
  status = 201;
  replay = false;
  body = record {
    id = 10;
    advertiser_id = 1;
    pixel_id = 2;
    name = "sale";
    event_type = "Purchase";
    category = "purchase";
    value = none;
    currency = none;
    rule = none;
    meta_custom_conversion_id = some "cc_act_1|sale";
    status = active;
    created_at = 1000;
    updated_at = 1000;
  };
}

pub first-eq : first ≡ (ok first_reply, first.1)
unfolding with_session begin commit close create_conversion_tag handle_with_key replay_or_create
    create_and_store store_reply request_hash ◌>>=◌ catch hash_request replayed lookup store scalar
    flush_add insert_row keep_rows interfere now tick call_meta flush_set Advertisers.get
    Tags.get_by_advertiser_and_name Tags.create Tokens.get Records.get Records.insert decrypted
    cached get_access_token ad_account ConversionTags.create submit create_or_resume owned_pixel
    maybe_fail keep_or_create create_locked create_custom_conversion new_conversion pixels_of
    conversion_tag_out decrypt or_unseal unseal xor xor_from urlsafe_b64encode urlsafe_b64decode
    encrypt letter bits? decode_from move take_bits fails_at
first-eq = refl
