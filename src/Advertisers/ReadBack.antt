-- ===== src/Advertisers/ReadBack.antt =====
-- `create` of app/services/advertiser_service.py, and `get` of the same advertiser in a later session.
use hub_meta_conversion_serv.Base.{
  ◌==◌, ==_iff, Bool-cases, inl, inr, true, false, ◌≡◌, refl, sym, ap, ◌∙◌, none, some, [], str_eq,
  any, arith, find, find-snoc_none, subst,
}
use hub_meta_conversion_serv.Exec.{ok, ◌>>=◌, pure, or_raise}
use hub_meta_conversion_serv.Models.{Uuid, Advertiser}
use hub_meta_conversion_serv.Schemas.{AdvertiserCreate, AdvertiserOut, advertiser_out}
use hub_meta_conversion_serv.Env.{Env}
use hub_meta_conversion_serv.Session.{World, begin, commit, close, with_session, scalar}
use hub_meta_conversion_serv.Repositories.Advertiser as Repo
use hub_meta_conversion_serv.Advertisers
use hub_meta_conversion_serv.Advertisers.{new_advertiser}
use hub_meta_conversion_serv.Advertisers.Unique.{created}
use hub_meta_conversion_serv.Api.{create_advertiser, get_advertiser}

module _ (env : Env) where
  get_advertiser-found :
      (id : Uuid) (w : World env.Remote env.Json) (row : Advertiser)
      → find (λ r. r.id == id) w.committed.advertisers ≡ some row
      → with_session env (get_advertiser env id) w ≡ (ok (advertiser_out row), begin w)
  unfolding with_session begin commit close get_advertiser Advertisers.get Repo.get scalar ◌>>=◌
      pure or_raise
  get_advertiser-found id w row found =
      rw (env.sql.scalar_finds Advertiser (λ r. r.id == id) w.committed.advertisers, found) refl

  -- No commit of another request is due, and the next id is that of no committed advertiser. If
  -- creating an advertiser succeeds, reading the advertiser with the returned id in the next
  -- session returns what the creation returned, and changes nothing but to begin the session.
  pub created_advertiser_reads_back :
      (d : AdvertiserCreate) (w w' : World env.Remote env.Json) (out : AdvertiserOut)
      → w.arrivals ≡ []
      → find (λ r. r.id == w.next_id) w.committed.advertisers ≡ none
      → with_session env (create_advertiser env d) w ≡ (ok out, w')
      → with_session env (get_advertiser env out.id) w' ≡ (ok out, begin w')
  unfolding advertiser_out
  created_advertiser_reads_back d w w' out alone new e =
      elim (Bool-cases (any (λ r. str_eq r.external_ref d.external_ref) w.committed.advertisers)) [
        | inl taken ↦
            let raised = sym (created env d w true taken alone).0 ∙ ap (λ x. x.0) e in ground arith
        | inr free ↦
            let (returned, stored) = created env d w false free alone in
            let row = new_advertiser d w.next_id w.clock in
            let rows =
              ap (λ x. x.1.committed.advertisers) (sym e) ∙ ap (λ db. db.advertisers) stored in
            let found =
              ap (find (λ r. r.id == row.id)) rows
              ∙ find-snoc_none (λ r. r.id == row.id) w.committed.advertisers row new
                  ((==_iff row.id row.id).1 refl) in
            let answer = sym returned ∙ ap (λ x. x.0) e in
            let same : advertiser_out row ≡ out = cc in
            subst (λ o. with_session env (get_advertiser env o.id) w' ≡ (ok o, begin w')) same
              (get_advertiser-found row.id w' row found)
      ]
