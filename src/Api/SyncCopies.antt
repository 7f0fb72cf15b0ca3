-- ===== src/Api/SyncCopies.antt =====
-- The pixel sync from the request to the committed rows (app/api/routes/integrations.py,
-- app/services/pixel_sync_service.py).
use hub_meta_conversion_serv.Base.{
  ℕ, ◌+◌, ◌≤◌, ◌≡◌, ◌≢◌, refl, sym, ap, subst, ◌∙◌, arith, true, some, find, find-holds, ◌==◌,
  ==_iff, String, List, [], All, length, map, any_of_find-some,
}
use hub_meta_conversion_serv.Exec.{ok, ◌>>=◌, pure, or_raise}
use hub_meta_conversion_serv.Models.{Uuid, Advertiser, Pixel}
use hub_meta_conversion_serv.Models.Tables
use hub_meta_conversion_serv.Models.Tables.{has_advertiser}
use hub_meta_conversion_serv.Meta.Schemas.{MetaPixel}
use hub_meta_conversion_serv.Schemas.{PixelSyncResult, pixel_out}
use hub_meta_conversion_serv.Security.{TokenCipher}
use hub_meta_conversion_serv.Env.{Env}
use hub_meta_conversion_serv.Session.{
  World, begin, commit, close, interfere, flush_set, with_session, scalar, scalars, call_meta,
}
use hub_meta_conversion_serv.Session.Rules.{TokenSteps, flush_add-Keeps, now-Keeps}
use hub_meta_conversion_serv.Session.Inserts.{interfere-none}
use hub_meta_conversion_serv.Repositories.Advertiser as Advertisers
use hub_meta_conversion_serv.Repositories.Pixel as Pixels
use hub_meta_conversion_serv.OAuth.{AccessToken, meta_provider, get_access_token}
use hub_meta_conversion_serv.PixelSync.{ad_account, upsert_all, sync_for_advertiser}
use hub_meta_conversion_serv.PixelSync.Resync.{Ready, resync_creates_none}
use hub_meta_conversion_serv.PixelSync.Keys.{Copy, Keyed, row_of, Distinct}
use hub_meta_conversion_serv.PixelSync.Copies.{upsert_all-Copies}
use hub_meta_conversion_serv.Requests.Keeps.{get_access_token-Keeps}
use hub_meta_conversion_serv.Api.{sync_pixels}

module _ (env : Env) (c : TokenCipher) (a : Uuid) (w u : World env.Remote env.Json)
    (advertiser : Advertiser) (account : String) (token : AccessToken)
    (fetched : List MetaPixel) where
  abbrev W : Type 0
  W = World env.Remote env.Json

  -- What the OAuth service leaves alone.
  record Untouched (v : W) : Type 0 where
    alone : v.arrivals ≡ []
    pixels : v.working.pixels ≡ w.committed.pixels
    here : has_advertiser v.working a ≡ true
    later_id : w.next_id ≤ v.next_id

  interfere-Untouched : (v : W) → Untouched v → Untouched (interfere v)
  interfere-Untouched v h = subst Untouched (sym (interfere-none v h.alone)) h

  Untouched-TokenSteps : TokenSteps env Untouched
  unfolding flush_set
  Untouched-TokenSteps = record {
    now_keeps = now-Keeps env Untouched (λ v t l h. record {
      alone = h.alone;
      pixels = h.pixels;
      here = h.here;
      later_id = h.later_id;
    });
    add_token = λ make.
        flush_add-Keeps env Tables.oauth_tokens Untouched make interfere-Untouched
          (λ v row rows h e. record {
            alone = h.alone;
            pixels = h.pixels;
            here = h.here;
            later_id = let le = h.later_id in omega arith;
          });
    set_token = λ p f. record {
      at = λ v h. record {
        alone = h.alone;
        pixels = h.pixels;
        here = h.here;
        later_id = h.later_id;
      };
    };
  }

  got-Untouched :
      w.arrivals ≡ []
      → find (λ r. r.id == a) w.committed.advertisers ≡ some advertiser
      → get_access_token env c a meta_provider (begin w) ≡ (ok token, u)
      → Untouched u
  unfolding begin
  got-Untouched alone found got =
      subst (λ r. Untouched r.1) got
        ((get_access_token-Keeps Untouched-TokenSteps c a meta_provider).at (begin w) (record {
          alone = alone;
          pixels = refl;
          here = any_of_find-some (λ r. r.id == a) w.committed.advertisers advertiser found;
          later_id = omega arith;
        }))

  -- After Meta has answered.
  abbrev answered : env.Remote → W
  answered remote = record u { remote = remote }

  -- With the loop's return, the session commits what the loop left.
  sync-eq :
      (remote : env.Remote) (counts : ℕ × ℕ)
      → find (λ r. r.id == a) w.committed.advertisers ≡ some advertiser
      → advertiser.id ≡ a
      → ad_account advertiser ≡ some account
      → get_access_token env c a meta_provider (begin w) ≡ (ok token, u)
      → env.adapter.list_pixels account token.value u.remote ≡ (ok fetched, remote)
      → (upsert_all env a fetched (0, 0) (answered remote)).0 ≡ ok counts
      → let v = (upsert_all env a fetched (0, 0) (answered remote)).1 in
        (result : PixelSyncResult) × (with_session env (sync_pixels env c a) w
          ≡ (ok result, commit v))
        × (result.pixels_fetched ≡ counts.0 + counts.1)
  unfolding with_session begin close sync_pixels sync_for_advertiser Advertisers.get
      Pixels.list_for_advertiser scalar scalars call_meta ◌>>=◌ pure or_raise
  sync-eq remote counts found same has_account got answer looped = (
    record {
      advertiser_id = a;
      pixels_fetched = counts.0 + counts.1;
      pixels_created = counts.0;
      pixels_updated = counts.1;
      pixels = map pixel_out (
          env.sql.scalars Pixel (λ r. r.advertiser_id == a) (λ r s. env.name_before r.name s.name)
            (upsert_all env a fetched (0, 0) (answered remote)).1.working.pixels);
    },
    rw
        (
          env.sql.scalar_finds Advertiser (λ r. r.id == a) w.committed.advertisers,
          found,
          has_account,
          got,
          answer,
          same,
          looped,
        )
        refl,
    refl,
  )

  -- No commit of another request is due, the ids of the committed pixels are below the next id and
  -- rows of one id are one row, the advertiser and its ad account are there, the OAuth service
  -- gives a token, and the adapter lists pixels, none twice. Then the sync succeeds and counts
  -- them all, the committed row of each has its name and status and is the advertiser's, and for
  -- every other pixel of Meta the committed row is the one from before.
  pub sync_copies_meta :
      (remote : env.Remote)
      → w.arrivals ≡ []
      → Keyed w.next_id w.committed.pixels
      → find (λ r. r.id == a) w.committed.advertisers ≡ some advertiser
      → ad_account advertiser ≡ some account
      → get_access_token env c a meta_provider (begin w) ≡ (ok token, u)
      → env.adapter.list_pixels account token.value u.remote ≡ (ok fetched, remote)
      → Distinct fetched
      → let out = with_session env (sync_pixels env c a) w in
        (result : PixelSyncResult) × (out.0 ≡ ok result)
        × (result.pixels_fetched ≡ length fetched)
        × All (Copy a out.1.committed.pixels) fetched
        × ((j : String)
            → All (λ p. p.id ≢ j) fetched
            → row_of out.1.committed.pixels j ≡ row_of w.committed.pixels j)
  unfolding commit
  sync_copies_meta remote alone keyed found has_account got answer distinct =
      let same : advertiser.id ≡ a =
        (==_iff advertiser.id a).0
          (find-holds (λ r. r.id == a) w.committed.advertisers advertiser found) in
      let kept = got-Untouched alone found got in
      let ready : Ready a (answered remote) = record { alone = kept.alone; here = kept.here } in
      let (created, updated, looped, total, stored, again) =
        resync_creates_none env a fetched (answered remote) kept.alone kept.here in
      let (result, ended, sum) =
        sync-eq remote (created, updated) found same has_account got answer looped in
      let copied =
        upsert_all-Copies env a fetched (0, 0) (answered remote) ready
          (subst (Keyed u.next_id) (sym kept.pixels) (later u.next_id kept.later_id)) distinct in
      rw ended (
        result,
        refl,
        sum ∙ total,
        copied.copies,
        λ j h. copied.others j h ∙ ap (λ l. row_of l j) kept.pixels,
      )
    where
      later : (n : ℕ) → w.next_id ≤ n → Keyed n w.committed.pixels
      later n le = record {
        below = λ r m. let lt = keyed.below r m in omega arith;
        apart = keyed.apart;
      }
