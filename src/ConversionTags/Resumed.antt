-- ===== src/ConversionTags/Resumed.antt =====
-- A `create` of app/services/conversion_tag_service.py that finds a tag which was left unfinished.
use hub_meta_conversion_serv.Base.{ℕ, ◌==◌, ==_iff, ◌≡◌, refl, some, String, str_eq, ◌&&◌, find}
use hub_meta_conversion_serv.Exec.{ok, ◌>>=◌, pure, or_raise}
use hub_meta_conversion_serv.Models.{
  Advertiser, Pixel, ConversionTag, TagStatus, pending, active, failed, Uuid,
}
use hub_meta_conversion_serv.Meta.Schemas.{CustomConversionCreateInput}
use hub_meta_conversion_serv.Schemas.{ConversionTagCreate}
use hub_meta_conversion_serv.Security.{TokenCipher}
use hub_meta_conversion_serv.Env.{Env}
use hub_meta_conversion_serv.Session.{World, scalar}
use hub_meta_conversion_serv.OAuth.{AccessToken, meta_provider, get_access_token}
use hub_meta_conversion_serv.PixelSync.{ad_account}
use hub_meta_conversion_serv.Repositories.Advertiser as Advertisers
use hub_meta_conversion_serv.Repositories.ConversionTag as Tags
use hub_meta_conversion_serv.ConversionTags.{
  marked_active, owned_pixel, submit, create_or_resume, create,
}
use hub_meta_conversion_serv.ConversionTags.Stored.{by_status}
use hub_meta_conversion_serv.ConversionTags.Outcome.{Decided, submit-Decided}

-- The tag is the other one, except for what Meta's answer sets.
pub record KeepsRequest (t tag : ConversionTag) : Type 0 where
  pub id : tag.id ≡ t.id
  pub advertiser_id : tag.advertiser_id ≡ t.advertiser_id
  pub pixel_id : tag.pixel_id ≡ t.pixel_id
  pub name : tag.name ≡ t.name
  pub event_type : tag.event_type ≡ t.event_type
  pub category : tag.category ≡ t.category
  pub value : tag.value ≡ t.value
  pub currency : tag.currency ≡ t.currency
  pub rule : tag.rule ≡ t.rule
  pub created_at : tag.created_at ≡ t.created_at

marked-KeepsRequest :
    (t : ConversionTag) (x : String) (input : CustomConversionCreateInput) (n : ℕ)
    → KeepsRequest t (marked_active x input n t)
marked-KeepsRequest t x input n = record {
  id = refl;
  advertiser_id = refl;
  pixel_id = refl;
  name = refl;
  event_type = refl;
  category = refl;
  value = refl;
  currency = refl;
  rule = refl;
  created_at = refl;
}

module _ (env : Env) (c : TokenCipher) (a : Uuid) (d : ConversionTagCreate) (account : String)
    (pixel : Pixel) where
  unfinished :
      (t : ConversionTag) (s : TagStatus)
      → t.status ≡ s
      → ¬ (s ≡ active)
      → create_or_resume env c a account pixel d (some t) ≡ submit env c a account pixel d t
  unfinished t pending q not_active = by_status env c a account pixel d t q
  unfinished t failed q not_active = by_status env c a account pixel d t q
  unfinished t active q not_active = absurd (not_active refl)

  -- The advertiser and its ad account are there, the pixel is there and is the advertiser's, the
  -- advertiser has a tag of that name that is not ACTIVE, and the OAuth service gives a token.
  -- Then `create` calls Meta once, with that token, the ad account, the pixel's id at Meta, and
  -- the name, event, category, value, currency and rule of the request. If Meta accepts, it
  -- returns a tag that has the id, advertiser, pixel, name, event, category, value, currency, rule
  -- and time of creation of the tag that was there, is ACTIVE, and has the id that Meta gave and
  -- what was sent. It raises UpstreamError for a MetaError, and any other exception goes on as it
  -- is.
  pub unfinished_tag_is_submitted :
      (w u : World env.Remote env.Json) (token : AccessToken) (advertiser : Advertiser)
      (t : ConversionTag)
      → find (λ r. r.id == a) w.working.advertisers ≡ some advertiser
      → ad_account advertiser ≡ some account
      → find (λ r. r.id == d.pixel_id) w.working.pixels ≡ some pixel
      → pixel.advertiser_id ≡ a
      → find (λ r. r.advertiser_id == a && str_eq r.name d.name) w.working.conversion_tags ≡ some t
      → ¬ (t.status ≡ active)
      → get_access_token env c a meta_provider w ≡ (ok token, u)
      → Decided env c a d account pixel u token (KeepsRequest t) (create env c a d w)
  unfolding create Advertisers.get Tags.get_by_advertiser_and_name scalar ◌>>=◌ owned_pixel pure
      or_raise
  unfinished_tag_is_submitted w u token advertiser t found has_account found_pixel own taken
        not_active got =
      rw
        (
          env.sql.scalar_finds Advertiser (λ r. r.id == a) w.working.advertisers,
          found,
          has_account,
          env.sql.scalar_finds Pixel (λ r. r.id == d.pixel_id) w.working.pixels,
          found_pixel,
          (==_iff pixel.advertiser_id a).1 own,
          env.sql.scalar_finds ConversionTag (λ r. r.advertiser_id == a && str_eq r.name d.name)
              w.working.conversion_tags,
          taken,
          unfinished t t.status refl not_active,
        )
        (submit-Decided env c a d account pixel u token t w (KeepsRequest t) (marked-KeepsRequest t)
          got)
