-- ===== src/ConversionTags/Outcome.antt =====
-- A first `create` of app/services/conversion_tag_service.py, and the answers of Meta to it.
use hub_meta_conversion_serv.Base.{
  ℕ, ◌==◌, ==_iff, true, ◌≡◌, refl, ◌∙◌, none, some, List, [], ◌∷◌, ◌++◌, String, str_eq, ◌&&◌,
  arith, find, any, any_of_find-none, any_of_find-some, find-holds,
}
use hub_meta_conversion_serv.Exec.{Result, ok, err, ◌>>=◌, pure, raise, gets, or_raise, catch}
use hub_meta_conversion_serv.Models.{Uuid, Advertiser, Pixel, ConversionTag, active}
use hub_meta_conversion_serv.Models.Tables
use hub_meta_conversion_serv.Models.Tables.{has_advertiser, has_pixel, held_tag}
use hub_meta_conversion_serv.Schemas.{ConversionTagCreate}
use hub_meta_conversion_serv.Meta.Schemas.{CustomConversion, CustomConversionCreateInput}
use hub_meta_conversion_serv.Meta.Adapter.{Raised, meta, transport, other}
use hub_meta_conversion_serv.Errors.{Exc, upstream, adapter_error, meta_failed}
use hub_meta_conversion_serv.Security.{TokenCipher}
use hub_meta_conversion_serv.Env.{Env}
use hub_meta_conversion_serv.Session.{World, scalar, flush_set, call_meta}
use hub_meta_conversion_serv.Session.Rules.{with_rows}
use hub_meta_conversion_serv.Session.Inserts.{str_eq_comm, interfere-none, flush_add-new}
use hub_meta_conversion_serv.OAuth.{AccessToken, meta_provider, get_access_token}
use hub_meta_conversion_serv.PixelSync.{ad_account}
use hub_meta_conversion_serv.Repositories.Advertiser as Advertisers
use hub_meta_conversion_serv.Repositories.ConversionTag as Tags
use hub_meta_conversion_serv.ConversionTags.{
  owned_pixel, pending_tag, meta_input, marked_active, on_meta_error, submit, create_or_resume,
  create,
}

-- The input asks Meta for what the request says, for that pixel.
pub record Asks (pixel : Pixel) (d : ConversionTagCreate) (input : CustomConversionCreateInput)
    : Type 0 where
  pub pixel_id : input.pixel_id ≡ pixel.meta_pixel_id
  pub name : input.name ≡ d.name
  pub event_type : input.event_type ≡ d.event_type
  pub category : input.category ≡ d.category
  pub value : input.value ≡ d.value
  pub currency : input.currency ≡ d.currency
  pub rule : input.rule ≡ d.rule

-- The tag describes what the request says.
pub record Describes (a : Uuid) (d : ConversionTagCreate) (tag : ConversionTag) : Type 0 where
  pub advertiser_id : tag.advertiser_id ≡ a
  pub pixel_id : tag.pixel_id ≡ d.pixel_id
  pub name : tag.name ≡ d.name
  pub event_type : tag.event_type ≡ d.event_type
  pub category : tag.category ≡ d.category
  pub value : tag.value ≡ d.value
  pub currency : tag.currency ≡ d.currency
  pub rule : tag.rule ≡ d.rule

-- Meta has accepted the input, and the tag says so.
pub record Accepted (input : CustomConversionCreateInput) (conversion : CustomConversion)
    (tag : ConversionTag) : Type 0 where
  pub is_active : tag.status ≡ active
  pub conversion_id : tag.meta_custom_conversion_id ≡ some conversion.id
  pub payload : tag.payload ≡ some input

-- What becomes of Meta's answer: an accepted tag of which `Is` holds, or an exception.
abbrev pub Follows :
    CustomConversionCreateInput
    → (ConversionTag → Type 0)
    → Result Raised CustomConversion
    → Result Exc ConversionTag
    → Type 0
Follows input Is (ok conversion) out =
    (tag : ConversionTag) × (out ≡ ok tag) × Accepted input conversion tag × Is tag
Follows input Is (err (meta e)) out = out ≡ err (upstream (meta_failed e))
Follows input Is (err (transport s)) out = out ≡ err (adapter_error (transport s))
Follows input Is (err (other s)) out = out ≡ err (adapter_error (other s))

meta_input-Asks : (pixel : Pixel) (d : ConversionTagCreate) → Asks pixel d (meta_input pixel d)
meta_input-Asks pixel d = record {
  pixel_id = refl;
  name = refl;
  event_type = refl;
  category = refl;
  value = refl;
  currency = refl;
  rule = refl;
}

pending-Describes :
    (a p : Uuid) (d : ConversionTagCreate) (x : String) (input : CustomConversionCreateInput)
    (n id now : ℕ)
    → p ≡ d.pixel_id
    → Describes a d (marked_active x input n (pending_tag a p d id now))
pending-Describes a p d x input n id now same = record {
  advertiser_id = refl;
  pixel_id = same;
  name = refl;
  event_type = refl;
  category = refl;
  value = refl;
  currency = refl;
  rule = refl;
}

clash-eq_lookup :
    (a : Uuid) (name : String) (l : List ConversionTag)
    → any (λ r. a == r.advertiser_id && str_eq name r.name) l
      ≡ any (λ r. r.advertiser_id == a && str_eq r.name name) l
clash-eq_lookup a name [] = refl
clash-eq_lookup a name (r ∷ l) = ground (arith, str_eq_comm name r.name, clash-eq_lookup a name l)

module _ (env : Env) (c : TokenCipher) (a : Uuid) (d : ConversionTagCreate) (account : String)
    (pixel : Pixel) (u : World env.Remote env.Json) (token : AccessToken) where
  -- One call of Meta, with an input that asks for what the request says, decides the outcome.
  pub record Decided (Is : ConversionTag → Type 0)
      (end : Result Exc ConversionTag × World env.Remote env.Json) : Type 0 where
    pub input : CustomConversionCreateInput
    pub asks : Asks pixel d input
    pub follows :
        Follows input Is
          (env.adapter.create_custom_conversion account token.value input u.remote).0
          end.0
    pub called :
        end.1.remote ≡ (env.adapter.create_custom_conversion account token.value input u.remote).1

  submit-Follows :
      (tag : ConversionTag) (w : World env.Remote env.Json) (Is : ConversionTag → Type 0)
      → ((x : String) (i : CustomConversionCreateInput) (n : ℕ) → Is (marked_active x i n tag))
      → get_access_token env c a meta_provider w ≡ (ok token, u)
      → (answer : Result Raised CustomConversion) (remote : env.Remote)
      → env.adapter.create_custom_conversion account token.value (meta_input pixel d) u.remote
        ≡ (answer, remote)
      → let (out, after) = submit env c a account pixel d tag w in
        Follows (meta_input pixel d) Is answer out × (after.remote ≡ remote)
  unfolding submit ◌>>=◌ catch call_meta flush_set on_meta_error raise gets pure
  submit-Follows tag w Is same got (ok conversion) remote e =
      let input = meta_input pixel d in
      rw (got, e)
        (
          (
            marked_active conversion.id input u.started tag,
            refl,
            record { is_active = refl; conversion_id = refl; payload = refl },
            same conversion.id input u.started,
          ),
          refl,
        )
  submit-Follows tag w Is same got (err (meta x)) remote e = rw (got, e) (refl, refl)
  submit-Follows tag w Is same got (err (transport s)) remote e = rw (got, e) (refl, refl)
  submit-Follows tag w Is same got (err (other s)) remote e = rw (got, e) (refl, refl)

  pub submit-Decided :
      (tag : ConversionTag) (w : World env.Remote env.Json) (Is : ConversionTag → Type 0)
      → ((x : String) (i : CustomConversionCreateInput) (n : ℕ) → Is (marked_active x i n tag))
      → get_access_token env c a meta_provider w ≡ (ok token, u)
      → Decided Is (submit env c a account pixel d tag w)
  submit-Decided tag w Is same got =
      let (follows, called) = submit-Follows tag w Is same got _ _ refl in
      record {
        input = meta_input pixel d;
        asks = meta_input-Asks pixel d;
        follows = follows;
        called = called;
      }

  same_pixel :
      (w : World env.Remote env.Json)
      → find (λ r. r.id == d.pixel_id) w.working.pixels ≡ some pixel
      → pixel.id ≡ d.pixel_id
  same_pixel w found =
      (==_iff pixel.id d.pixel_id).0
        (find-holds (λ r. r.id == d.pixel_id) w.working.pixels pixel found)

  -- What the tag refers to is there.
  stands :
      (w : World env.Remote env.Json) (advertiser : Advertiser)
      → find (λ r. r.id == a) w.working.advertisers ≡ some advertiser
      → find (λ r. r.id == d.pixel_id) w.working.pixels ≡ some pixel
      → (has_advertiser w.working a && has_pixel w.working pixel.id) ≡ true
  stands w advertiser found found_pixel =
      rw
        (
          any_of_find-some (λ r. r.id == a) w.working.advertisers advertiser found,
          same_pixel w found_pixel,
        )
        (any_of_find-some (λ r. r.id == d.pixel_id) w.working.pixels pixel found_pixel)

  -- No commit of another request is due, the advertiser and its ad account are there, the pixel is
  -- there and is the advertiser's, the advertiser has no tag of that name, and the OAuth service
  -- gives a token once the new row is stored. Then `create` calls Meta once, with that token, the
  -- ad account, the pixel's id at Meta, and the name, event, category, value, currency and rule of
  -- the request. If Meta accepts, it returns a tag with the next id that is the advertiser's and
  -- has the pixel, name, event, category, value, currency and rule of the request, is ACTIVE, and
  -- has the id that Meta gave and what was sent. It raises UpstreamError for a MetaError, and any
  -- other exception goes on as it is.
  pub new_tag_follows_meta :
      (w : World env.Remote env.Json) (advertiser : Advertiser)
      → w.arrivals ≡ []
      → find (λ r. r.id == a) w.working.advertisers ≡ some advertiser
      → ad_account advertiser ≡ some account
      → find (λ r. r.id == d.pixel_id) w.working.pixels ≡ some pixel
      → pixel.advertiser_id ≡ a
      → find (λ r. r.advertiser_id == a && str_eq r.name d.name) w.working.conversion_tags ≡ none
      → (let row = held_tag env.sql.numeric (pending_tag a pixel.id d w.next_id w.started) in
          get_access_token env c a meta_provider
            (with_rows Tables.conversion_tags w (w.working.conversion_tags ++ row ∷ [])))
        ≡ (ok token, u)
      → Decided (λ tag. (tag.id ≡ w.next_id) × Describes a d tag) (create env c a d w)
  unfolding create Advertisers.get Tags.get_by_advertiser_and_name Tags.create create_or_resume
      scalar ◌>>=◌ catch owned_pixel pure or_raise
  new_tag_follows_meta w advertiser alone found has_account found_pixel own free got =
      rw
        (
          env.sql.scalar_finds Advertiser (λ r. r.id == a) w.working.advertisers,
          found,
          has_account,
          env.sql.scalar_finds Pixel (λ r. r.id == d.pixel_id) w.working.pixels,
          found_pixel,
          (==_iff pixel.advertiser_id a).1 own,
          env.sql.scalar_finds ConversionTag (λ r. r.advertiser_id == a && str_eq r.name d.name)
              w.working.conversion_tags,
          free,
          flush_add-new env Tables.conversion_tags (pending_tag a pixel.id d) w w
              (interfere-none w alone) (stands w advertiser found found_pixel)
              (clash-eq_lookup a d.name w.working.conversion_tags
                ∙ any_of_find-none (λ r. r.advertiser_id == a && str_eq r.name d.name)
                    w.working.conversion_tags free),
        )
        (submit-Decided _ _ (λ tag. (tag.id ≡ w.next_id) × Describes a d tag)
          (λ x input n. (
            refl,
            pending-Describes a pixel.id d x input n w.next_id w.started (same_pixel w found_pixel),
          ))
          got)
