-- ===== src/ConversionTags/Guards.antt =====
-- What `create` of app/services/conversion_tag_service.py checks before it writes.
use hub_meta_conversion_serv.Base.{
  ◌==◌, ◌≡◌, refl, ap, ◌∙◌, Option, none, some, String, str_eq, ◌&&◌, arith, find, if◌then◌else◌,
  Bool-cases, inl, inr,
}
use hub_meta_conversion_serv.Exec.{ok, err, ◌>>=◌, pure, raise, or_raise}
use hub_meta_conversion_serv.Models.{Uuid, Advertiser, Pixel, ConversionTag, active}
use hub_meta_conversion_serv.Schemas.{ConversionTagCreate}
use hub_meta_conversion_serv.Errors.{
  Exc, not_found, upstream, advertiser_missing, no_ad_account, pixel_missing,
}
use hub_meta_conversion_serv.Security.{TokenCipher}
use hub_meta_conversion_serv.Env.{Env}
use hub_meta_conversion_serv.Session.{World, scalar}
use hub_meta_conversion_serv.PixelSync.{ad_account}
use hub_meta_conversion_serv.Repositories.Advertiser as Advertisers
use hub_meta_conversion_serv.Repositories.ConversionTag as Tags
use hub_meta_conversion_serv.ConversionTags.{owned_pixel, create_or_resume, create}
use hub_meta_conversion_serv.ConversionTags.Completion.{resume-active}

-- Why a request is refused, from the rows with the ids that it names.
abbrev pub refusal : Uuid → ConversionTagCreate → Option Advertiser → Option Pixel → Option Exc
refusal a d none row = some (not_found (advertiser_missing a))
refusal a d (some advertiser) row = elim (ad_account advertiser) [
  | none ↦ some (upstream (no_ad_account a))
  | some account ↦ elim row [
    | none ↦ some (not_found (pixel_missing d.pixel_id a))
    | some pixel ↦
        if pixel.advertiser_id == a then none else some (not_found (pixel_missing d.pixel_id a))
  ]
]

module _ (env : Env) (c : TokenCipher) (a : Uuid) (d : ConversionTagCreate)
    (w : World env.Remote env.Json) where
  refused_after :
      (x : Advertiser) (account : Option String) (row : Option Pixel) (e : Exc)
      → find (λ r. r.id == a) w.working.advertisers ≡ some x
      → ad_account x ≡ account
      → find (λ r. r.id == d.pixel_id) w.working.pixels ≡ row
      → refusal a d (some x) row ≡ some e
      → create env c a d w ≡ (err e, w)
  unfolding create Advertisers.get scalar ◌>>=◌ or_raise raise pure owned_pixel
  refused_after x none row e p k q h =
      rw (env.sql.scalar_finds Advertiser (λ r. r.id == a) w.working.advertisers, p, k)
        (ground arith)
  refused_after x (some account) none e p k q h =
      rw
        (
          env.sql.scalar_finds Advertiser (λ r. r.id == a) w.working.advertisers,
          p,
          k,
          env.sql.scalar_finds Pixel (λ r. r.id == d.pixel_id) w.working.pixels,
          q,
        )
        (ground arith)
  refused_after x (some account) (some pixel) e p k q h =
      elim (Bool-cases (pixel.advertiser_id == a)) [
        | inl own ↦ ground arith
        | inr other ↦
            rw
              (
                env.sql.scalar_finds Advertiser (λ r. r.id == a) w.working.advertisers,
                p,
                k,
                env.sql.scalar_finds Pixel (λ r. r.id == d.pixel_id) w.working.pixels,
                q,
                other,
              )
              (ground arith)
      ]

  passed_after :
      (x : Advertiser) (account : Option String) (row : Option Pixel)
      → find (λ r. r.id == a) w.working.advertisers ≡ some x
      → ad_account x ≡ account
      → find (λ r. r.id == d.pixel_id) w.working.pixels ≡ row
      → refusal a d (some x) row ≡ none
      → (account : String) × (pixel : Pixel) × (create env c a d w
          ≡ create_or_resume env c a account pixel d
              (find (λ r. r.advertiser_id == a && str_eq r.name d.name) w.working.conversion_tags)
              w)
  unfolding create Advertisers.get scalar ◌>>=◌ or_raise raise pure owned_pixel
      Tags.get_by_advertiser_and_name
  passed_after x none row p k q h = ground arith
  passed_after x (some account) none p k q h = ground arith
  passed_after x (some account) (some pixel) p k q h =
      elim (Bool-cases (pixel.advertiser_id == a)) [
        | inl own ↦ (
          account,
          pixel,
          rw
              (
                env.sql.scalar_finds Advertiser (λ r. r.id == a) w.working.advertisers,
                p,
                k,
                env.sql.scalar_finds Pixel (λ r. r.id == d.pixel_id) w.working.pixels,
                q,
                own,
                env.sql.scalar_finds ConversionTag
                    (λ r. r.advertiser_id == a && str_eq r.name d.name) w.working.conversion_tags,
              )
              refl,
        )
        | inr other ↦ ground arith
      ]

  refused :
      (o : Option Advertiser) (row : Option Pixel) (e : Exc)
      → find (λ r. r.id == a) w.working.advertisers ≡ o
      → find (λ r. r.id == d.pixel_id) w.working.pixels ≡ row
      → refusal a d o row ≡ some e
      → create env c a d w ≡ (err e, w)
  unfolding create Advertisers.get scalar ◌>>=◌ or_raise raise pure owned_pixel
  refused none row e p q h =
      rw (env.sql.scalar_finds Advertiser (λ r. r.id == a) w.working.advertisers, p) (ground arith)
  refused (some x) row e p q h = refused_after x (ad_account x) row e p refl q h

  -- Where nothing is refused, the tag of that name decides.
  passed :
      (o : Option Advertiser) (row : Option Pixel)
      → find (λ r. r.id == a) w.working.advertisers ≡ o
      → find (λ r. r.id == d.pixel_id) w.working.pixels ≡ row
      → refusal a d o row ≡ none
      → (account : String) × (pixel : Pixel) × (create env c a d w
          ≡ create_or_resume env c a account pixel d
              (find (λ r. r.advertiser_id == a && str_eq r.name d.name) w.working.conversion_tags)
              w)
  passed none row p q h = ground arith
  passed (some x) row p q h = passed_after x (ad_account x) row p refl q h

  -- `refusal` says what is wrong with a request: there is no such advertiser, or it has no ad
  -- account, or there is no such pixel or it is another advertiser's. If something is wrong by the
  -- rows that the transaction sees, `create` of the conversion tag service raises that and leaves
  -- the world as it was.
  pub refusal_is_raised :
      (e : Exc)
      → refusal a d
          (find (λ r. r.id == a) w.working.advertisers)
          (find (λ r. r.id == d.pixel_id) w.working.pixels)
        ≡ some e
      → create env c a d w ≡ (err e, w)
  refusal_is_raised e h = refused _ _ e refl refl h

  -- If nothing is wrong with a request by `refusal`, and the advertiser has an ACTIVE tag of that
  -- name, `create` returns that tag, whatever else the request asks for, and leaves the world as
  -- it was: neither the database nor Meta is touched.
  pub active_tag_is_returned :
      (tag : ConversionTag)
      → refusal a d
          (find (λ r. r.id == a) w.working.advertisers)
          (find (λ r. r.id == d.pixel_id) w.working.pixels)
        ≡ none
      → find (λ r. r.advertiser_id == a && str_eq r.name d.name) w.working.conversion_tags
        ≡ some tag
      → tag.status ≡ active
      → create env c a d w ≡ (ok tag, w)
  active_tag_is_returned tag accepted there done =
      let (account, pixel, e) = passed _ _ refl refl accepted in
      e
      ∙ ap (λ o. create_or_resume env c a account pixel d o w) there
      ∙ resume-active env c a account pixel d tag w done
