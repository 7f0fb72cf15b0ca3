-- ===== src/Api.antt =====
-- The request handlers (app/api/routes), the session around them (app/api/deps.py), and the
-- translation of exceptions into responses (app/api/errors.py).
pub mod Replay
pub mod Responses
pub mod Reads
pub mod SyncFailure
pub mod SyncCopies
pub mod Store
pub mod LostRace
pub mod FirstThenReplay
use hub_meta_conversion_serv.Base.{
  ℕ, ◌+◌, Bool, true, false, String, Option, none, some, List, map, str_eq, if◌then◌else◌,
}
use hub_meta_conversion_serv.Exec.{Result, ok, err, ◌>>=◌, ◌>>◌, pure, raise, or_raise, catch}
use hub_meta_conversion_serv.Models.{Uuid}
use hub_meta_conversion_serv.Schemas.{
  AdvertiserCreate, AdvertiserOut, advertiser_out, PixelOut, pixel_out, PixelSyncResult,
  ConversionTagCreate, ConversionTagOut, conversion_tag_out,
}
use hub_meta_conversion_serv.Env.{Env}
use hub_meta_conversion_serv.Errors.{
  Exc, Message, not_found, conflict, idempotency_conflict, upstream, validation_error,
  http_exception,
}
use hub_meta_conversion_serv.Security.{TokenCipher}
use hub_meta_conversion_serv.Session.{World, App, with_session}
use hub_meta_conversion_serv.Advertisers
use hub_meta_conversion_serv.ConversionTags
use hub_meta_conversion_serv.PixelSync
use hub_meta_conversion_serv.Idempotency
use hub_meta_conversion_serv.Repositories.Pixel as Pixels

abbrev pub tags_endpoint : String
tags_endpoint = "POST /advertisers/{id}/conversion-tags"

-- A response of `create_conversion_tag`: the status, whether `Idempotent-Replay` is set, the body.
pub record TagReply : Type 0 where
  pub status : ℕ
  pub replay : Bool
  pub body : ConversionTagOut

-- `if idempotency_key`: a text is false if it is empty.
abbrev pub given_key : Option String → Option String
given_key none = none
given_key (some key) = if str_eq key "" then none else some key

module _ (env : Env) where
  -- `request_hash` of `create_conversion_tag`.
  unfoldable pub request_hash : Uuid → ConversionTagCreate → String
  request_hash advertiser_id payload =
      Idempotency.hash_request env (env.dump_request advertiser_id payload)

  -- The failure to store a record, as the client sees it.
  unfoldable pub store_failed : Exc → App env Unit
  store_failed e = raise (http_exception 500 e)

  unfoldable pub store_reply : String → String → ConversionTagOut → App env Unit
  store_reply key hash out =
      catch
        (Idempotency.store env tags_endpoint key hash 201 (env.dump_out out) Idempotency.record_ttl)
        store_failed

  -- The handler for a request whose key, if it has one, is not on record.
  unfoldable pub create_and_store :
      TokenCipher → Uuid → ConversionTagCreate → Option String → String → App env TagReply
  create_and_store cipher advertiser_id payload none hash = do
    tag ← ConversionTags.create env cipher advertiser_id payload
    pure (record { status = 201; replay = false; body = conversion_tag_out tag })
  create_and_store cipher advertiser_id payload (some key) hash = do
    tag ← ConversionTags.create env cipher advertiser_id payload
    let out = conversion_tag_out tag
    store_reply key hash out
    pure (record { status = 201; replay = false; body = out })

  -- `return ConversionTagOut.model_validate(cached_body)`
  unfoldable pub replay_or_create :
      TokenCipher
      → Uuid
      → ConversionTagCreate
      → String
      → String
      → Option (ℕ × env.Json)
      → App env TagReply
  replay_or_create cipher advertiser_id payload key hash none =
      create_and_store cipher advertiser_id payload (some key) hash
  replay_or_create cipher advertiser_id payload key hash (some (status, body)) = do
    out ← or_raise (env.validate_out body) validation_error
    pure (record { status = status; replay = true; body = out })

  unfoldable pub handle_with_key :
      TokenCipher → Uuid → ConversionTagCreate → Option String → String → App env TagReply
  handle_with_key cipher advertiser_id payload none hash =
      create_and_store cipher advertiser_id payload none hash
  handle_with_key cipher advertiser_id payload (some key) hash = do
    cached ← Idempotency.lookup env tags_endpoint key hash
    replay_or_create cipher advertiser_id payload key hash cached

  unfoldable pub create_conversion_tag :
      TokenCipher → Uuid → ConversionTagCreate → Option String → App env TagReply
  create_conversion_tag cipher advertiser_id payload idempotency_key =
      handle_with_key cipher advertiser_id payload (given_key idempotency_key)
        (request_hash advertiser_id payload)

  unfoldable pub sync_pixels : TokenCipher → Uuid → App env PixelSyncResult
  sync_pixels cipher advertiser_id = do
    (pixels, created, updated) ← PixelSync.sync_for_advertiser env cipher advertiser_id
    pure (record {
      advertiser_id = advertiser_id;
      pixels_fetched = created + updated;
      pixels_created = created;
      pixels_updated = updated;
      pixels = map pixel_out pixels;
    })

  unfoldable pub create_advertiser : AdvertiserCreate → App env AdvertiserOut
  create_advertiser payload = do
    advertiser ← Advertisers.create env payload
    pure (advertiser_out advertiser)

  unfoldable pub get_advertiser : Uuid → App env AdvertiserOut
  get_advertiser advertiser_id = do
    advertiser ← Advertisers.get env advertiser_id
    pure (advertiser_out advertiser)

  unfoldable pub list_pixels : Uuid → App env (List PixelOut)
  list_pixels advertiser_id = do
    Advertisers.get env advertiser_id
    pixels ← Pixels.list_for_advertiser env env.name_before advertiser_id
    pure (map pixel_out pixels)

  unfoldable pub list_conversion_tags : Uuid → App env (List ConversionTagOut)
  list_conversion_tags advertiser_id = do
    tags ← ConversionTags.list_for_advertiser env advertiser_id
    pure (map conversion_tag_out tags)
