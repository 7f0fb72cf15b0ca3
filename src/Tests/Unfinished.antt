-- ===== src/Tests/Unfinished.antt =====
-- The theorem on tags that were left unfinished at a concrete input.
use hub_meta_conversion_serv.Base.{◌≡◌, refl, some, [], ◌∷◌, arith}
use hub_meta_conversion_serv.Exec.{Result, ok, ◌>>=◌}
use hub_meta_conversion_serv.Errors.{Exc}
use hub_meta_conversion_serv.Models.{ConversionTag, failed}
use hub_meta_conversion_serv.Security.{encrypt, decrypt, or_unseal, unseal, xor, xor_from}
use hub_meta_conversion_serv.Security.Base64.{
  letter, bits?, urlsafe_b64encode, take_bits, move, decode_from, urlsafe_b64decode,
}
use hub_meta_conversion_serv.Session.{World, tick, now, scalar}
use hub_meta_conversion_serv.Repositories.OAuthToken as Tokens
use hub_meta_conversion_serv.OAuth.{AccessToken, meta_provider, decrypted, cached, get_access_token}
use hub_meta_conversion_serv.PixelSync.{ad_account}
use hub_meta_conversion_serv.ConversionTags
use hub_meta_conversion_serv.ConversionTags.{meta_input}
use hub_meta_conversion_serv.ConversionTags.Outcome.{Decided}
use hub_meta_conversion_serv.ConversionTags.Resumed.{KeepsRequest, unfinished_tag_is_submitted}
use hub_meta_conversion_serv.Meta.Mock.{MockMeta}
use hub_meta_conversion_serv.Tests.World.{
  Document, test_env, cipher, shop, start, purchase, advertiser, pixel,
}
use hub_meta_conversion_serv.Tests.Services.{stored_token}
use hub_meta_conversion_serv.Tests.Sessions.{done_tag}

-- It has the name that the request gives, and another type of event.
abbrev failed_tag : ConversionTag
failed_tag = record done_tag { name = purchase.name; status = failed }

abbrev interrupted : World MockMeta Document
interrupted = record start { working = record shop { conversion_tags = failed_tag ∷ [] } }

abbrev token_read : Result Exc AccessToken × World MockMeta Document
token_read = get_access_token test_env cipher 1 meta_provider interrupted

token_read-eq : token_read ≡ (ok stored_token, token_read.1)
unfolding get_access_token Tokens.get scalar now tick ◌>>=◌ decrypted cached decrypt or_unseal
    unseal xor xor_from urlsafe_b64encode urlsafe_b64decode encrypt letter bits? decode_from move
    take_bits
token_read-eq = refl

has_account : ad_account advertiser ≡ some "act_1"
unfolding ad_account
has_account = refl

unfinished_tag_is_submitted_example :
    Decided test_env cipher 1 purchase "act_1" pixel token_read.1 stored_token
      (KeepsRequest failed_tag)
      (ConversionTags.create test_env cipher 1 purchase interrupted)
unfinished_tag_is_submitted_example =
    unfinished_tag_is_submitted test_env cipher 1 purchase "act_1" pixel interrupted token_read.1
      stored_token advertiser failed_tag refl has_account refl refl refl (λ q. ground arith)
      token_read-eq
