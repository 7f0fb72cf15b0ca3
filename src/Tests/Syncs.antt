-- ===== src/Tests/Syncs.antt =====
-- The theorem on the pixel sync, for one pixel that is known and one that is new.
use mathlib.Core.List.{Memᴰ}
use mathlib.Core.List.Memᴰ.{head, tail}
use hub_meta_conversion_serv.Base.{
  ◌≡◌, ◌≢◌, refl, sym, ap, ◌∙◌, arith, eq_iff, String, some, List, [], ◌∷◌, All,
}
use hub_meta_conversion_serv.Exec.{Result, ok, ◌>>=◌, gets}
use hub_meta_conversion_serv.Errors.{Exc}
use hub_meta_conversion_serv.Models.{Pixel}
use hub_meta_conversion_serv.Meta.Schemas.{MetaPixel}
use hub_meta_conversion_serv.Security.{encrypt, decrypt, or_unseal, unseal, xor, xor_from}
use hub_meta_conversion_serv.Security.Base64.{
  letter, bits?, urlsafe_b64encode, take_bits, move, decode_from, urlsafe_b64decode,
}
use hub_meta_conversion_serv.Schemas.{PixelSyncResult}
use hub_meta_conversion_serv.Session.{World, begin, tick, now, scalar, with_session}
use hub_meta_conversion_serv.OAuth.{AccessToken, meta_provider, decrypted, cached, get_access_token}
use hub_meta_conversion_serv.Repositories.OAuthToken as Tokens
use hub_meta_conversion_serv.PixelSync.{ad_account}
use hub_meta_conversion_serv.PixelSync.Keys.{Copy, Keyed, row_of}
use hub_meta_conversion_serv.Meta.Mock.{MockMeta, list_pixels, maybe_fail, fails_at, pixels_of}
use hub_meta_conversion_serv.Api.{sync_pixels}
use hub_meta_conversion_serv.Api.SyncCopies.{sync_copies_meta}
use hub_meta_conversion_serv.Tests.World.{
  Document, test_env, cipher, shop, mock, start, advertiser, pixel, meta_pixel,
}
use hub_meta_conversion_serv.Tests.Services.{stored_token}

abbrev read : Result Exc AccessToken × World MockMeta Document
read = get_access_token test_env cipher 1 meta_provider (begin start)

read-eq : read ≡ (ok stored_token, read.1)
unfolding begin get_access_token Tokens.get scalar now tick ◌>>=◌ decrypted cached decrypt or_unseal
    unseal xor xor_from urlsafe_b64encode urlsafe_b64decode encrypt letter bits? decode_from move
    take_bits
read-eq = refl

abbrev spare : MetaPixel
spare = record { id = "px_2"; name = "Spare"; status = "active" }

abbrev fetched : List MetaPixel
fetched = meta_pixel ∷ spare ∷ []

abbrev called : MockMeta
called = record mock { call_counter = 1 }

listed : list_pixels "act_1" stored_token.value read.1.remote ≡ (ok fetched, called)
unfolding begin get_access_token Tokens.get scalar now tick ◌>>=◌ decrypted cached decrypt or_unseal
    unseal xor xor_from urlsafe_b64encode urlsafe_b64decode encrypt letter bits? decode_from move
    take_bits list_pixels maybe_fail fails_at pixels_of gets
listed = refl

only_pixel : (r : Pixel) → Memᴰ r shop.pixels → r ≡ pixel
only_pixel r (head e) = e
only_pixel r (tail m) = elim m [ ]

shop-Keyed : Keyed 10 shop.pixels
shop-Keyed = record {
  below = λ r m. let e = ap (λ x. x.id) (only_pixel r m) in omega arith;
  apart = λ r s m o same. ap (λ x. x.meta_pixel_id) (only_pixel r m ∙ sym (only_pixel s o));
}

apart_ids : spare.id ≢ meta_pixel.id
apart_ids e = ground (arith, eq_iff "px_2" "px_1")

has_account : ad_account advertiser ≡ some "act_1"
unfolding ad_account
has_account = refl

sync_copies_meta_example :
    let out = with_session test_env (sync_pixels test_env cipher 1) start in
    (result : PixelSyncResult) × (out.0 ≡ ok result)
    × (result.pixels_fetched ≡ 2)
    × All (Copy 1 out.1.committed.pixels) fetched
    × ((j : String)
        → All (λ p. p.id ≢ j) fetched
        → row_of out.1.committed.pixels j ≡ row_of shop.pixels j)
sync_copies_meta_example =
    sync_copies_meta test_env cipher 1 start read.1 advertiser "act_1" stored_token fetched called
      refl shop-Keyed refl has_account read-eq listed ((apart_ids, tt), (tt, tt))
