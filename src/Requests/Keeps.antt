-- ===== src/Requests/Keeps.antt =====
-- The handlers and services under a property of the world that the steps of a session keep.
use hub_meta_conversion_serv.Base.{◌≡◌, refl, ℕ, String, Option, none, some, List, [], ◌∷◌}
use hub_meta_conversion_serv.Exec.Keeps.{
  Keeps, keeps_rules, Keeps-bind, Keeps-pure, Keeps-raise, Keeps-if, Keeps-or_raise,
}
use hub_meta_conversion_serv.Models.{
  Uuid, Pixel, ConversionTag, OAuthToken, IdempotencyRecord, TagStatus, pending, active, failed,
}
use hub_meta_conversion_serv.Meta.Schemas.{MetaPixel, CustomConversionCreateInput}
use hub_meta_conversion_serv.Meta.Adapter.{meta}
use hub_meta_conversion_serv.Errors.{Exc, integrity_error, adapter_error}
use hub_meta_conversion_serv.Schemas.{AdvertiserCreate, ConversionTagCreate, ConversionTagOut}
use hub_meta_conversion_serv.Security.{TokenCipher}
use hub_meta_conversion_serv.Env.{Env}
use hub_meta_conversion_serv.Session.{World}
use hub_meta_conversion_serv.Session.Rules.{
  Stable, TokenSteps, token_steps, TagSteps, RecordSteps, Keeps-scalar, Keeps-scalars,
}
use hub_meta_conversion_serv.Repositories.Advertiser as AdvertiserRepo
use hub_meta_conversion_serv.Repositories.Pixel as PixelRepo
use hub_meta_conversion_serv.Repositories.ConversionTag as TagRepo
use hub_meta_conversion_serv.Repositories.OAuthToken as TokenRepo
use hub_meta_conversion_serv.Repositories.Idempotency as RecordRepo
use hub_meta_conversion_serv.OAuth
use hub_meta_conversion_serv.PixelSync
use hub_meta_conversion_serv.ConversionTags
use hub_meta_conversion_serv.Advertisers
use hub_meta_conversion_serv.Idempotency
use hub_meta_conversion_serv.Api

ruleset read_rules = (keeps_rules, Keeps-scalar, Keeps-scalars)

module _ {env : Env} {P : World env.Remote env.Json → Type 0} (ts : TokenSteps env P) where
  insert_or_renew-Keeps :
      (u : TokenRepo.Upsert) (o : Option OAuthToken) → Keeps P (TokenRepo.insert_or_renew env u o)
  unfolding TokenRepo.insert_or_renew
  insert_or_renew-Keeps u none = search (read_rules, ts.add_token)
  insert_or_renew-Keeps u (some t) = search (read_rules, ts.set_token)

  upsert-Keeps : (u : TokenRepo.Upsert) → Keeps P (TokenRepo.upsert env u)
  unfolding TokenRepo.upsert TokenRepo.get
  upsert-Keeps u = search (read_rules, insert_or_renew-Keeps)

  pub store_initial_token-Keeps :
      (c : TokenCipher) (a : Uuid) (t : String) (r : Option String) (ttl : ℕ) (s : Option String)
      (p : String)
      → Keeps P (OAuth.store_initial_token env c a t r ttl s p)
  unfolding OAuth.store_initial_token
  store_initial_token-Keeps c a t r ttl s p = search (read_rules, ts.now_keeps, upsert-Keeps)

  save_refreshed-Keeps :
      (c : TokenCipher) (a : Uuid) (p : String) (t : OAuthToken) (n : String × Option String × ℕ)
      → Keeps P (OAuth.save_refreshed env c a p t n)
  unfolding OAuth.save_refreshed
  save_refreshed-Keeps c a p t (x, y, z) =
      Keeps-bind _ _ ts.now_keeps (λ n. Keeps-bind _ _ (upsert-Keeps _) (λ u. Keeps-pure _))

  refresh-Keeps :
      (c : TokenCipher) (a : Uuid) (p : String) (t : OAuthToken)
      → Keeps P (OAuth.refresh env c a p t)
  unfolding OAuth.refresh OAuth.decrypted
  refresh-Keeps c a p t = search (read_rules, save_refreshed-Keeps)

  cached-Keeps : (c : TokenCipher) (t : OAuthToken) → Keeps P (OAuth.cached env c t)
  unfolding OAuth.cached OAuth.decrypted
  cached-Keeps c t = search read_rules

  pub get_access_token-Keeps :
      (c : TokenCipher) (a : Uuid) (p : String) → Keeps P (OAuth.get_access_token env c a p)
  unfolding OAuth.get_access_token TokenRepo.get
  get_access_token-Keeps c a p = Keeps-bind _ _ (Keeps-scalar env _ _) (λ f.
      Keeps-bind _ _ (Keeps-or_raise _ _) (λ t.
        Keeps-bind _ _ ts.now_keeps
          (λ n. Keeps-if _ _ _ (cached-Keeps c t) (refresh-Keeps c a p t))))

module _ {env : Env} {P : World env.Remote env.Json → Type 0} (st : Stable env P) where
  insert_or_update-Keeps :
      (a : Uuid) (m n s : String) (o : Option Pixel)
      → Keeps P (PixelRepo.insert_or_update env a m n s o)
  unfolding PixelRepo.insert_or_update
  insert_or_update-Keeps a m n s none = search (read_rules, st.add_pixel)
  insert_or_update-Keeps a m n s (some p) = search (read_rules, st.set_pixel)

  upsert_from_meta-Keeps :
      (a : Uuid) (m n s : String) → Keeps P (PixelRepo.upsert_from_meta env a m n s)
  unfolding PixelRepo.upsert_from_meta PixelRepo.get_by_meta_id
  upsert_from_meta-Keeps a m n s = search (read_rules, insert_or_update-Keeps)

  upsert_all-Keeps :
      (a : Uuid) (l : List MetaPixel) (c : ℕ × ℕ) → Keeps P (PixelSync.upsert_all env a l c)
  unfolding PixelSync.upsert_all
  upsert_all-Keeps a [] c = search read_rules
  upsert_all-Keeps a (p ∷ l) c =
      Keeps-bind _ _ (upsert_from_meta-Keeps a p.id p.name p.status)
        (λ b. upsert_all-Keeps a l (PixelSync.counted b c))

  sync_for_advertiser-Keeps :
      (c : TokenCipher) (a : Uuid) → Keeps P (PixelSync.sync_for_advertiser env c a)
  unfolding PixelSync.sync_for_advertiser AdvertiserRepo.get PixelRepo.list_for_advertiser
  sync_for_advertiser-Keeps c a =
      search (read_rules, st.meta_keeps, get_access_token-Keeps (token_steps st), upsert_all-Keeps)
        depth 12

  pub list_tags-Keeps : (a : Uuid) → Keeps P (ConversionTags.list_for_advertiser env a)
  unfolding ConversionTags.list_for_advertiser AdvertiserRepo.get TagRepo.list_for_advertiser
  list_tags-Keeps a = search read_rules depth 9

  on_conflict-Keeps : (d : AdvertiserCreate) (e : Exc) → Keeps P (Advertisers.on_conflict env d e)
  unfolding Advertisers.on_conflict
  on_conflict-Keeps d integrity_error = search (read_rules, st.roll_back_keeps)
  on_conflict-Keeps d _ = search read_rules

  create_advertiser_row-Keeps : (d : AdvertiserCreate) → Keeps P (Advertisers.create env d)
  unfolding Advertisers.create AdvertiserRepo.create
  create_advertiser_row-Keeps d = search (read_rules, st.add_advertiser, on_conflict-Keeps)

  get_advertiser_row-Keeps : (a : Uuid) → Keeps P (Advertisers.get env a)
  unfolding Advertisers.get AdvertiserRepo.get
  get_advertiser_row-Keeps a = search read_rules

  pub sync_pixels-Keeps : (c : TokenCipher) (a : Uuid) → Keeps P (Api.sync_pixels env c a)
  unfolding Api.sync_pixels
  sync_pixels-Keeps c a = Keeps-bind _ _ (sync_for_advertiser-Keeps c a) (λ r. Keeps-pure _)

  pub create_advertiser-Keeps : (d : AdvertiserCreate) → Keeps P (Api.create_advertiser env d)
  unfolding Api.create_advertiser
  create_advertiser-Keeps d = search (read_rules, create_advertiser_row-Keeps)

  pub get_advertiser-Keeps : (a : Uuid) → Keeps P (Api.get_advertiser env a)
  unfolding Api.get_advertiser
  get_advertiser-Keeps a = search (read_rules, get_advertiser_row-Keeps)

  pub list_pixels-Keeps : (a : Uuid) → Keeps P (Api.list_pixels env a)
  unfolding Api.list_pixels PixelRepo.list_for_advertiser
  list_pixels-Keeps a = search (read_rules, get_advertiser_row-Keeps) depth 9

  pub list_conversion_tags-Keeps : (a : Uuid) → Keeps P (Api.list_conversion_tags env a)
  unfolding Api.list_conversion_tags
  list_conversion_tags-Keeps a = search (read_rules, list_tags-Keeps)

module _ {env : Env} {P : World env.Remote env.Json → Type 0} (st : Stable env P)
    (ts : TagSteps env P) where
  on_meta_error-Keeps :
      (t : ConversionTag) (i : CustomConversionCreateInput) (e : Exc)
      → Keeps P (ConversionTags.on_meta_error env t i e)
  unfolding ConversionTags.on_meta_error
  on_meta_error-Keeps t i (adapter_error (meta e)) = search (read_rules, ts.set_tag)
  on_meta_error-Keeps t i _ = search read_rules

  submit-Keeps :
      (c : TokenCipher) (a : Uuid) (k : String) (p : Pixel) (d : ConversionTagCreate)
      (t : ConversionTag)
      → Keeps P (ConversionTags.submit env c a k p d t)
  unfolding ConversionTags.submit
  submit-Keeps c a k p d t =
      search
        (
          read_rules,
          st.meta_keeps,
          ts.set_tag,
          get_access_token-Keeps (token_steps st),
          on_meta_error-Keeps,
        )
        depth 9

  on_insert_error-Keeps : (n : String) (e : Exc) → Keeps P (ConversionTags.on_insert_error env n e)
  unfolding ConversionTags.on_insert_error
  on_insert_error-Keeps n e = search (read_rules, st.roll_back_keeps)

  resume-Keeps :
      (c : TokenCipher) (a : Uuid) (k : String) (p : Pixel) (d : ConversionTagCreate)
      (t : ConversionTag) (s : TagStatus)
      → t.status ≡ s
      → Keeps P (ConversionTags.create_or_resume env c a k p d (some t))
  unfolding ConversionTags.create_or_resume
  resume-Keeps c a k p d t pending e = rw e (submit-Keeps c a k p d t)
  resume-Keeps c a k p d t active e = rw e (Keeps-pure t)
  resume-Keeps c a k p d t failed e = rw e (submit-Keeps c a k p d t)

  create_or_resume-Keeps :
      (c : TokenCipher) (a : Uuid) (k : String) (p : Pixel) (d : ConversionTagCreate)
      (o : Option ConversionTag)
      → Keeps P (ConversionTags.create_or_resume env c a k p d o)
  create_or_resume-Keeps c a k p d none =
      unfold ConversionTags.create_or_resume TagRepo.create in
      search (read_rules, ts.add_tag, submit-Keeps, on_insert_error-Keeps)
  create_or_resume-Keeps c a k p d (some t) = resume-Keeps c a k p d t t.status refl

  pub create_tag-Keeps :
      (c : TokenCipher) (a : Uuid) (d : ConversionTagCreate)
      → Keeps P (ConversionTags.create env c a d)
  unfolding ConversionTags.create AdvertiserRepo.get TagRepo.get_by_advertiser_and_name
  create_tag-Keeps c a d = search (read_rules, create_or_resume-Keeps) depth 14

module _ {env : Env} {P : World env.Remote env.Json → Type 0} (st : Stable env P)
    (rs : RecordSteps env P) where
  reread-Keeps : (p k : String) (e : Exc) → Keeps P (RecordRepo.reread env p k e)
  unfolding RecordRepo.reread RecordRepo.get
  reread-Keeps p k integrity_error =
      Keeps-bind _ _ st.roll_back_keeps
        (λ u. Keeps-bind _ _ (Keeps-scalar env _ _) (λ r. Keeps-or_raise r _))
  reread-Keeps p k _ = search read_rules

  insert-Keeps : (i : RecordRepo.Insert env.Json) → Keeps P (RecordRepo.insert env i)
  unfolding RecordRepo.insert
  insert-Keeps i = search (read_rules, rs.add_record, reread-Keeps)

  store-Keeps :
      (p k h : String) (s : ℕ) (b : env.Json) (ttl : ℕ)
      → Keeps P (Idempotency.store env p k h s b ttl)
  unfolding Idempotency.store
  store-Keeps p k h s b ttl =
      Keeps-bind _ _ st.now_keeps (λ n. Keeps-bind _ _ (insert-Keeps _) (λ r. Keeps-pure _))

  replayed-Keeps :
      (h : String) (o : Option (IdempotencyRecord env.Json))
      → Keeps P (Idempotency.replayed env h o)
  unfolding Idempotency.replayed
  replayed-Keeps h none = search read_rules
  replayed-Keeps h (some r) = Keeps-if _ _ _ (Keeps-pure _) (Keeps-raise _)

  pub lookup-Keeps : (p k h : String) → Keeps P (Idempotency.lookup env p k h)
  unfolding Idempotency.lookup RecordRepo.get
  lookup-Keeps p k h = search (read_rules, replayed-Keeps)

  pub store_reply-Keeps :
      (k h : String) (o : ConversionTagOut) → Keeps P (Api.store_reply env k h o)
  unfolding Api.store_reply Api.store_failed
  store_reply-Keeps k h o = search (read_rules, store-Keeps)

module _ {env : Env} {P : World env.Remote env.Json → Type 0} (st : Stable env P)
    (ts : TagSteps env P) (rs : RecordSteps env P) where
  create_and_store-Keeps :
      (c : TokenCipher) (a : Uuid) (d : ConversionTagCreate) (k : Option String) (h : String)
      → Keeps P (Api.create_and_store env c a d k h)
  unfolding Api.create_and_store
  create_and_store-Keeps c a d none h = search (read_rules, create_tag-Keeps st ts)
  create_and_store-Keeps c a d (some k) h =
      search (read_rules, create_tag-Keeps st ts, store_reply-Keeps st rs)

  replay_or_create-Keeps :
      (c : TokenCipher) (a : Uuid) (d : ConversionTagCreate) (k h : String)
      (o : Option (ℕ × env.Json))
      → Keeps P (Api.replay_or_create env c a d k h o)
  unfolding Api.replay_or_create
  replay_or_create-Keeps c a d k h none = create_and_store-Keeps c a d (some k) h
  replay_or_create-Keeps c a d k h (some (s, b)) = search read_rules

  handle_with_key-Keeps :
      (c : TokenCipher) (a : Uuid) (d : ConversionTagCreate) (k : Option String) (h : String)
      → Keeps P (Api.handle_with_key env c a d k h)
  unfolding Api.handle_with_key
  handle_with_key-Keeps c a d none h = create_and_store-Keeps c a d none h
  handle_with_key-Keeps c a d (some k) h =
      search (read_rules, lookup-Keeps st rs, replay_or_create-Keeps)

  pub create_conversion_tag-Keeps :
      (c : TokenCipher) (a : Uuid) (d : ConversionTagCreate) (k : Option String)
      → Keeps P (Api.create_conversion_tag env c a d k)
  unfolding Api.create_conversion_tag
  create_conversion_tag-Keeps c a d k = handle_with_key-Keeps c a d _ _
