-- ===== src/Advertisers/Unique.antt =====
-- `create` of app/services/advertiser_service.py in its session, on both answers of the database.
use hub_meta_conversion_serv.Base.{
  Bool, true, false, ◌≡◌, refl, ◌∙◌, List, [], ◌∷◌, ◌++◌, String, str_eq, any, if◌then◌else◌,
}
use hub_meta_conversion_serv.Exec.{ok, err, ◌>>=◌, pure, raise, catch}
use hub_meta_conversion_serv.Models.{Advertiser}
use hub_meta_conversion_serv.Models.Tables
use hub_meta_conversion_serv.Schemas.{AdvertiserCreate, advertiser_out}
use hub_meta_conversion_serv.Errors.{conflict, advertiser_exists}
use hub_meta_conversion_serv.Env.{Env}
use hub_meta_conversion_serv.Session.{
  World, begin, commit, rollback, roll_back, close, with_session,
}
use hub_meta_conversion_serv.Session.Inserts.{
  str_eq_comm, interfere-none, flush_add-new, flush_add-clash,
}
use hub_meta_conversion_serv.Repositories.Advertiser as Repo
use hub_meta_conversion_serv.Advertisers
use hub_meta_conversion_serv.Advertisers.{new_advertiser, on_conflict}
use hub_meta_conversion_serv.Api.{create_advertiser}

clash-eq_taken :
    (ref : String) (l : List Advertiser)
    → any (λ r. str_eq ref r.external_ref) l ≡ any (λ r. str_eq r.external_ref ref) l
clash-eq_taken ref [] = refl
clash-eq_taken ref (r ∷ l) = rw (str_eq_comm ref r.external_ref, clash-eq_taken ref l)

module _ (env : Env) (d : AdvertiserCreate) (w : World env.Remote env.Json) where
  pub created :
      (taken : Bool)
      → any (λ r. str_eq r.external_ref d.external_ref) w.committed.advertisers ≡ taken
      → w.arrivals ≡ []
      → let row = new_advertiser d w.next_id w.clock in
        let after = with_session env (create_advertiser env d) w in
        (after.0 ≡ (
          if taken
          then err (conflict (advertiser_exists d.external_ref))
          else ok (advertiser_out row)))
        × (after.1.committed ≡ (
            if taken
            then w.committed
            else record w.committed { advertisers = w.committed.advertisers ++ row ∷ [] }))
  unfolding with_session begin commit rollback close create_advertiser Advertisers.create
      Repo.create on_conflict roll_back catch ◌>>=◌ raise pure
  created true e alone =
      let lost =
        flush_add-clash env Tables.advertisers (new_advertiser d) (begin w) (begin w)
          (interfere-none (begin w) alone)
          (clash-eq_taken d.external_ref w.committed.advertisers ∙ e) in
      (rw lost refl, rw lost refl)
  created false e alone =
      let made =
        flush_add-new env Tables.advertisers (new_advertiser d) (begin w) (begin w)
          (interfere-none (begin w) alone) refl
          (clash-eq_taken d.external_ref w.committed.advertisers ∙ e) in
      (rw made refl, rw made refl)

  -- No commit of another request is due. Creating an advertiser raises ConflictError and leaves
  -- the committed database as it was if a committed advertiser has its external_ref, and otherwise
  -- returns the new advertiser and commits its row behind the others, with nothing else changed.
  pub external_ref_is_unique :
      w.arrivals ≡ []
      → let taken = any (λ r. str_eq r.external_ref d.external_ref) w.committed.advertisers in
        let row = new_advertiser d w.next_id w.clock in
        let after = with_session env (create_advertiser env d) w in
        (after.0 ≡ (
          if taken
          then err (conflict (advertiser_exists d.external_ref))
          else ok (advertiser_out row)))
        × (after.1.committed ≡ (
            if taken
            then w.committed
            else record w.committed { advertisers = w.committed.advertisers ++ row ∷ [] }))
  external_ref_is_unique alone = created _ refl alone
