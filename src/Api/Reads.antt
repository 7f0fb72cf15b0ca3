-- ===== src/Api/Reads.antt =====
-- The handlers that only read (`list_conversion_tags` of app/api/routes/advertisers.py).
use mathlib.Core.List.{Perm}
use mathlib.Core.List.Perm
use hub_meta_conversion_serv.Base.{
  arith, IsSorted, map-IsSorted, Bool, ◌≡◌, refl, Option, none, some, List, map, filter, find, ◌==◌,
  leb, if◌then◌else◌, any_of_find-none, any_of_find-some,
}
use hub_meta_conversion_serv.Exec.{ok, err, ◌>>=◌, pure, or_raise}
use hub_meta_conversion_serv.Models.{Uuid, Advertiser, ConversionTag}
use hub_meta_conversion_serv.Models.Tables.{has_advertiser}
use hub_meta_conversion_serv.Schemas.{ConversionTagOut, conversion_tag_out}
use hub_meta_conversion_serv.Errors.{not_found, advertiser_missing}
use hub_meta_conversion_serv.Env.{Env}
use hub_meta_conversion_serv.Session.{
  World, begin, commit, rollback, close, with_session, scalar, scalars,
}
use hub_meta_conversion_serv.Repositories.Advertiser as Advertisers
use hub_meta_conversion_serv.Repositories.ConversionTag as Tags
use hub_meta_conversion_serv.ConversionTags
use hub_meta_conversion_serv.Api.{list_conversion_tags}

module _ (env : Env) (a : Uuid) (w : World env.Remote env.Json) where
  abbrev rows : List ConversionTag
  rows =
      env.sql.scalars ConversionTag (λ r. r.advertiser_id == a)
        (λ r s. leb s.created_at r.created_at) w.committed.conversion_tags

  abbrev newer : ConversionTag → ConversionTag → Bool
  newer r s = leb s.created_at r.created_at

  listed :
      (o : Option Advertiser)
      → find (λ r. r.id == a) w.committed.advertisers ≡ o
      → with_session env (list_conversion_tags env a) w ≡ (
          if has_advertiser w.committed a
          then (ok (map conversion_tag_out rows), begin w)
          else (err (not_found (advertiser_missing a)), begin w))
  unfolding with_session begin commit rollback close list_conversion_tags
      ConversionTags.list_for_advertiser Advertisers.get Tags.list_for_advertiser scalar scalars
      ◌>>=◌ pure or_raise
  listed none e =
      rw
        (
          env.sql.scalar_finds Advertiser (λ r. r.id == a) w.committed.advertisers,
          e,
          any_of_find-none (λ r. r.id == a) w.committed.advertisers e,
        )
        refl
  listed (some x) e =
      rw
        (
          env.sql.scalar_finds Advertiser (λ r. r.id == a) w.committed.advertisers,
          e,
          any_of_find-some (λ r. r.id == a) w.committed.advertisers x e,
        )
        refl

  -- Listing conversion tags returns, if the advertiser is there, the committed tags of that
  -- advertiser, each once and the newest first, and raises NotFoundError if it is not; the session
  -- leaves the world as its begin found it.
  pub lists_own_tags :
      (outs : List ConversionTagOut) × IsSorted (λ r s. leb s.created_at r.created_at) outs
      × (Perm outs
          (map conversion_tag_out (filter (λ r. r.advertiser_id == a) w.committed.conversion_tags)))
      × (with_session env (list_conversion_tags env a) w ≡ (
          if has_advertiser w.committed a
          then (ok outs, begin w)
          else (err (not_found (advertiser_missing a)), begin w)))
  lists_own_tags = (
    map conversion_tag_out rows,
    map-IsSorted newer (λ r s. leb s.created_at r.created_at) conversion_tag_out
        (λ x y. unfold conversion_tag_out in refl) rows
        (env.sql.scalars_ordered ConversionTag _ newer _ (λ x y h. ground arith)
          (λ x y z h k. ground arith)),
    Perm.map conversion_tag_out (env.sql.scalars_selects _ _ _ _),
    listed _ refl,
  )
