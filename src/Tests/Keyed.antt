-- ===== src/Tests/Keyed.antt =====
-- The theorems on Idempotency-Keys as a map, for a request that is sent twice.
use hub_meta_conversion_serv.Base.{◌≤◌, refl, some, List, [], ◌∷◌}
use hub_meta_conversion_serv.Keyed.{keys_of}
use hub_meta_conversion_serv.Keyed.Runs.{
  KeyedRequest, answer_all, KeyRun, KeysGiven, sessions_run_keys, firsts, key_creates_once,
}
use hub_meta_conversion_serv.Keyed.Committed.{Shows, success_is_committed}
use hub_meta_conversion_serv.Tests.Run.{first, first_reply, first-eq}
use hub_meta_conversion_serv.Tests.World.{test_env, cipher, start, purchase}
use hub_meta_conversion_serv.Tests.Keys.{key_given}

abbrev twice : List KeyedRequest
twice =
    record { advertiser_id = 1; payload = purchase; key = "k1" }
    ∷ record { advertiser_id = 1; payload = record purchase { name = "other" }; key = "k1" }
    ∷ record { advertiser_id = 1; payload = purchase; key = "k1" }
    ∷ []

twice_given : KeysGiven test_env cipher twice
twice_given = (key_given, (key_given, (key_given, tt)))

sessions_run_keys_example :
    let (replies, w') = answer_all test_env cipher twice start in
    KeyRun test_env cipher (keys_of start.committed) replies (keys_of w'.committed)
sessions_run_keys_example = sessions_run_keys test_env cipher twice start twice_given refl

key_creates_once_example : firsts "k1" (answer_all test_env cipher twice start).0 ≤ 1
key_creates_once_example = key_creates_once test_env cipher "k1" twice start twice_given refl

success_is_committed_example : Shows test_env.sql.numeric 1 purchase first_reply first.1
success_is_committed_example =
    success_is_committed test_env cipher 1 purchase start first.1 first_reply refl (some "k1")
      first-eq refl
