-- ===== src/OAuth/Refreshed.antt =====
-- The row that a refresh of app/services/oauth_service.py leaves.
use hub_meta_conversion_serv.Base.{
  ◌+◌, ◌≡◌, refl, sym, ap, ◌∙◌, arith, Bool, true, Option, none, some, String, List, [], ◌∷◌, ◌==◌,
  ==_iff, str_eq, ◌&&◌, find, update, subst₂,
}
use hub_meta_conversion_serv.Exec.{ok, ◌>>=◌, pure}
use hub_meta_conversion_serv.Exec.Returns.{or_raise-passed}
use hub_meta_conversion_serv.Models.{Uuid, OAuthToken}
use hub_meta_conversion_serv.Security.{TokenCipher, token_cipher, encrypt, decrypt}
use hub_meta_conversion_serv.Security.Integrity.{decrypt-encrypt}
use hub_meta_conversion_serv.Env.{Env}
use hub_meta_conversion_serv.Session.{World, scalar, flush_set}
use hub_meta_conversion_serv.Session.Clock.{now-shape}
use hub_meta_conversion_serv.Repositories.OAuthToken as Tokens
use hub_meta_conversion_serv.OAuth.{
  AccessToken, encrypt_if, decrypted, save_refreshed, refresh, refresh_with_provider, default_ttl,
  utc,
}

-- The row that a lookup finds, after an update that finds it too and changes nothing that it looks at.
find-update :
    {A : Type 0} (p q : A → Bool) (f : A → A) (l : List A) (x : A)
    → find p l ≡ some x
    → ((y : A) → p (f y) ≡ p y)
    → q x ≡ true
    → find p (update q f l) ≡ some (f x)
find-update p q f [] x e h k = ground arith
find-update p q f (y ∷ l) x e h k = ground (arith, find-update p q f l x, h y)

module _ (env : Env) (c : TokenCipher) (a : Uuid) (provider : String) where
  abbrev the_token : OAuthToken → Bool
  the_token r = r.advertiser_id == a && str_eq r.provider provider

  -- The row on record is that of the token, and has the parts of the old row.
  pub record Stored (old : OAuthToken) (token : AccessToken) (w : World env.Remote env.Json)
      : Type 0 where
    row : OAuthToken
    found : find the_token w.working.oauth_tokens ≡ some row
    readable : decrypt env.crypto c row.access_token_encrypted ≡ some token.value
    expiry : row.expires_at ≡ token.expires_at
    same_refresh_token : row.refresh_token_encrypted ≡ old.refresh_token_encrypted
    same_scopes : row.scopes ≡ old.scopes

  saved-Stored :
      (key : String) (old : OAuthToken) (value : String) (w w' : World env.Remote env.Json)
      (token : AccessToken)
      → token_cipher env.crypto key ≡ some c
      → find the_token w.working.oauth_tokens ≡ some old
      → save_refreshed env c a provider old (value, none, default_ttl) w ≡ (ok token, w')
      → Stored old token w'
  unfolding save_refreshed Tokens.upsert Tokens.get Tokens.insert_or_renew scalar flush_set ◌>>=◌
      pure encrypt_if
  saved-Stored key old value w w' token made there e =
      let (t, rest, read) = now-shape env w in
      let rows = w.working.oauth_tokens in
      let u : Tokens.Upsert = record {
        advertiser_id = a;
        provider = provider;
        access_token_encrypted = encrypt env.crypto c value;
        refresh_token_encrypted = none;
        expires_at = utc (t + default_ttl);
        scopes = old.scopes;
      } in
      let same = λ (r : OAuthToken). r.id == old.id in
      let f = Tokens.renewed u w.started in
      let given : AccessToken = record { value = value; expires_at = utc (t + default_ttl) } in
      let w2 : World env.Remote env.Json = record w {
        clock = t;
        ticks = rest;
        working = record w.working { oauth_tokens = env.sql.change OAuthToken same f rows };
      } in
      let run : save_refreshed env c a provider old (value, none, default_ttl) w ≡ (ok given, w2) =
        rw (read, env.sql.scalar_finds OAuthToken the_token rows, there) refl in
      let end = sym run ∙ e in
      let p : Path AccessToken given token = ground arith in
      let q : Path (World env.Remote env.Json) w2 w' = ground arith in
      subst₂ (Stored old) p q (record {
        row = f old;
        found =
            ap (find the_token) (env.sql.change_updates OAuthToken same f rows)
            ∙ find-update the_token same f rows old there (λ y. unfold Tokens.renewed in refl)
                ((==_iff old.id old.id).1 refl);
        readable = unfold Tokens.renewed in decrypt-encrypt env.crypto key c value made;
        expiry = unfold Tokens.renewed in refl;
        same_refresh_token = unfold Tokens.renewed in refl;
        same_scopes = unfold Tokens.renewed in kept old.scopes;
      })
    where
      kept : (o : Option String) → Tokens.or_keep o o ≡ o
      kept none = refl
      kept (some s) = refl

  -- The cipher is made from an accepted key, and the row on record for the advertiser and the
  -- provider is refreshed and a token returned. Then the row on record for them afterwards
  -- decrypts to the value of that token and has its expiry, and it keeps the refresh token and the
  -- scopes of the old row.
  pub refresh_stores_token :
      (key : String) (old : OAuthToken) (w w' : World env.Remote env.Json) (token : AccessToken)
      → token_cipher env.crypto key ≡ some c
      → find the_token w.working.oauth_tokens ≡ some old
      → refresh env c a provider old w ≡ (ok token, w')
      → (row : OAuthToken) × (find the_token w'.working.oauth_tokens ≡ some row)
        × (decrypt env.crypto c row.access_token_encrypted ≡ some token.value)
        × (row.expires_at ≡ token.expires_at)
        × (row.refresh_token_encrypted ≡ old.refresh_token_encrypted)
        × (row.scopes ≡ old.scopes)
  unfolding refresh refresh_with_provider decrypted
  refresh_stores_token key old w w' token made there e =
      let (b, opened) = or_raise-passed old.refresh_token_encrypted _ _ w w' token e in
      let (plain, saved) = or_raise-passed (decrypt env.crypto c b) _ _ w w' token opened in
      let s = saved-Stored key old _ w w' token made there saved in
      (s.row, s.found, s.readable, s.expiry, s.same_refresh_token, s.same_scopes)
