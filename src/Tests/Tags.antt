-- ===== src/Tests/Tags.antt =====
-- The theorems on the checks of the services at concrete inputs.
use hub_meta_conversion_serv.Base.{◌≡◌, refl, none, [], ◌∷◌, ◌++◌, if◌then◌else◌, any, str_eq}
use hub_meta_conversion_serv.Exec.{Result, ok, err, ◌>>=◌, catch}
use hub_meta_conversion_serv.Schemas.{
  AdvertiserCreate, AdvertiserOut, advertiser_out, ConversionTagCreate,
}
use hub_meta_conversion_serv.Errors.{Exc, not_found, conflict, pixel_missing, advertiser_exists}
use hub_meta_conversion_serv.Session.{
  World, begin, close, commit, flush_add, insert_row, keep_rows, interfere, arrive, with_session,
}
use hub_meta_conversion_serv.PixelSync.{ad_account}
use hub_meta_conversion_serv.ConversionTags
use hub_meta_conversion_serv.ConversionTags.Guards.{refusal_is_raised, active_tag_is_returned}
use hub_meta_conversion_serv.Advertisers.{new_advertiser}
use hub_meta_conversion_serv.Advertisers.Unique.{external_ref_is_unique}
use hub_meta_conversion_serv.Advertisers.ReadBack.{created_advertiser_reads_back}
use hub_meta_conversion_serv.Repositories.Advertiser as Advertisers
use hub_meta_conversion_serv.Advertisers as Service
use hub_meta_conversion_serv.Api.{create_advertiser, get_advertiser}
use hub_meta_conversion_serv.Meta.Mock.{MockMeta}
use hub_meta_conversion_serv.Tests.World.{Document, test_env, cipher, shop, start, purchase}
use hub_meta_conversion_serv.Tests.Sessions.{done_tag}

abbrev astray : ConversionTagCreate
astray = record purchase { pixel_id = 99 }

refusal_is_raised_example :
    ConversionTags.create test_env cipher 1 astray start
    ≡ (err (not_found (pixel_missing 99 1)), start)
unfolding ad_account
refusal_is_raised_example =
    refusal_is_raised test_env cipher 1 astray start (not_found (pixel_missing 99 1)) refl

abbrev stocked : World MockMeta Document
stocked = record start { working = record shop { conversion_tags = done_tag ∷ [] } }

active_tag_is_returned_example :
    ConversionTags.create test_env cipher 1 (record purchase { name = "old" }) stocked
    ≡ (ok done_tag, stocked)
unfolding ad_account
active_tag_is_returned_example =
    active_tag_is_returned test_env cipher 1 (record purchase { name = "old" }) stocked done_tag
      refl refl refl

abbrev newcomer : AdvertiserCreate
newcomer = record {
  name = "Second";
  external_ref = "second";
  meta_business_id = none;
  meta_ad_account_id = none;
}

external_ref_is_unique_example :
    let taken = any (λ r. str_eq r.external_ref "second") shop.advertisers in
    let row = new_advertiser newcomer 10 1000 in
    let after = with_session test_env (create_advertiser test_env newcomer) start in
    (after.0
      ≡ (if taken then err (conflict (advertiser_exists "second")) else ok (advertiser_out row)))
    × (after.1.committed
        ≡ (if taken then shop else record shop { advertisers = shop.advertisers ++ row ∷ [] }))
external_ref_is_unique_example = external_ref_is_unique test_env newcomer start refl

abbrev registered : Result Exc AdvertiserOut × World MockMeta Document
registered = with_session test_env (create_advertiser test_env newcomer) start

abbrev newcomer_out : AdvertiserOut
newcomer_out = advertiser_out (new_advertiser newcomer 10 1000)

registered-eq : registered ≡ (ok newcomer_out, registered.1)
unfolding with_session begin close commit create_advertiser Service.create Advertisers.create catch
    flush_add insert_row keep_rows interfere arrive ◌>>=◌
registered-eq = refl

created_advertiser_reads_back_example :
    with_session test_env (get_advertiser test_env newcomer_out.id) registered.1
    ≡ (ok newcomer_out, begin registered.1)
created_advertiser_reads_back_example =
    created_advertiser_reads_back test_env newcomer start registered.1 newcomer_out refl refl
      registered-eq
