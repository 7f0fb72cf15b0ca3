-- ===== src/Tests/Keys.antt =====
-- The theorems on Idempotency-Keys at concrete inputs.
use hub_meta_conversion_serv.Base.{◌≡◌, ◌≢◌, refl, true, some, List, [], ◌∷◌, String, eq_iff, arith}
use hub_meta_conversion_serv.Exec.{ok, err}
use hub_meta_conversion_serv.Models.{IdempotencyRecord}
use hub_meta_conversion_serv.Errors.{idempotency_conflict, key_reused}
use hub_meta_conversion_serv.Schemas.{ConversionTagCreate}
use hub_meta_conversion_serv.Session.{World, begin, with_session}
use hub_meta_conversion_serv.Idempotency.{hash_request}
use hub_meta_conversion_serv.Api.{tags_endpoint, request_hash, create_conversion_tag}
use hub_meta_conversion_serv.Api.FirstThenReplay.{first_reply_is_replayed}
use hub_meta_conversion_serv.Api.Replay.{replay_returns_recorded, reuse_raises_conflict}
use hub_meta_conversion_serv.Requests.{Request, sync_pixels, serve_all}
use hub_meta_conversion_serv.Requests.Persistence.{record_at, records_persist}
use hub_meta_conversion_serv.OAuth.{utc}
use hub_meta_conversion_serv.Meta.Mock.{MockMeta}
use hub_meta_conversion_serv.Tests.World.{Document, reply, test_env, cipher, shop, start, purchase}
use hub_meta_conversion_serv.Tests.Run.{first, first_reply, first-eq}

abbrev pub key_text : String
key_text = "k1"

pub key_given : key_text ≢ ""
key_given e = ground (arith, eq_iff "k1" "")

abbrev traffic : List Request
traffic =
    sync_pixels 1
    ∷ Request.create_conversion_tag 1 (record purchase { name = "Other" }) (some "k1")
    ∷ []

first_reply_is_replayed_example :
    with_session test_env
      (create_conversion_tag test_env cipher 1 purchase (some "k1"))
      (serve_all test_env cipher traffic first.1)
    ≡ (ok (record first_reply { replay = true }), begin (serve_all test_env cipher traffic first.1))
first_reply_is_replayed_example =
    first_reply_is_replayed test_env cipher 1 purchase "k1" start first.1 first_reply traffic
      key_given refl first-eq

-- A record of an earlier reply.
abbrev pub old_record : IdempotencyRecord Document
old_record = record {
  id = 4;
  endpoint = tags_endpoint;
  key = "k1";
  request_hash = "l";
  response_status = 201;
  response_body = reply first_reply.body;
  expires_at = utc 900;
  created_at = 5;
  updated_at = 5;
}

abbrev recorded : World MockMeta Document
recorded = record start { committed = record shop { idempotency_records = old_record ∷ [] } }

old_record-found : record_at tags_endpoint "k1" recorded.committed ≡ some old_record
old_record-found = refl

replay_returns_recorded_example :
    with_session test_env (create_conversion_tag test_env cipher 1 purchase (some "k1")) recorded
    ≡ (ok (record { status = 201; replay = true; body = first_reply.body }), begin recorded)
unfolding request_hash hash_request
replay_returns_recorded_example =
    replay_returns_recorded test_env cipher 1 purchase "k1" recorded old_record first_reply.body
      key_given old_record-found refl refl

abbrev big_sale : ConversionTagCreate
big_sale = record purchase { name = "Big sale" }

hashes_differ : old_record.request_hash ≢ request_hash test_env 1 big_sale
unfolding request_hash hash_request
hashes_differ e = ground (arith, eq_iff "l" "u")

reuse_raises_conflict_example :
    with_session test_env (create_conversion_tag test_env cipher 1 big_sale (some "k1")) recorded
    ≡ (err (idempotency_conflict key_reused), begin recorded)
reuse_raises_conflict_example =
    reuse_raises_conflict test_env cipher 1 big_sale "k1" recorded old_record key_given
      old_record-found hashes_differ

records_persist_example :
    record_at tags_endpoint "k1" (serve_all test_env cipher traffic recorded).committed
    ≡ some old_record
records_persist_example =
    records_persist test_env tags_endpoint "k1" old_record cipher traffic recorded old_record-found
      tt
