-- ===== src/Tests/World.antt =====
-- The environment and the worlds that the theorems are applied at: lists for tables, the mock for
-- Meta, and toy primitives for the hashes.
use hub_meta_conversion_serv.Base.{
  ℕ, zero, suc, ◌+◌, ◌*◌, ◌%◌, ◌^◌, ◌++◌, if◌then◌else◌, ◌<◌, refl, arith, true, false, String,
  Option, none, some, [], ◌∷◌, All, leb,
}
use hub_meta_conversion_serv.Models.{Uuid, Bytes, Advertiser, Pixel, OAuthToken, Db}
use hub_meta_conversion_serv.Schemas.{ConversionTagCreate, ConversionTagOut}
use hub_meta_conversion_serv.Env.{Env}
use hub_meta_conversion_serv.Session.{World}
use hub_meta_conversion_serv.Security.{Crypto, TokenCipher, encrypt}
use hub_meta_conversion_serv.Meta.Mock.{MockMeta, mock_adapter}
use hub_meta_conversion_serv.Meta.Schemas.{MetaPixel}
use hub_meta_conversion_serv.Tests.Codec.{encode, decode, decode-encode_text, encode-bytes}
use hub_meta_conversion_serv.Tests.Engine.{list_sql}

abbrev pub pad : ℕ → Bytes
pad zero = []
pad (suc n) = 7 ∷ pad n

pub pad-bytes : (n : ℕ) → All (λ b. b < 256) (pad n)
pad-bytes zero = tt
pad-bytes (suc n) = (omega arith, pad-bytes n)

abbrev pub checksum : Bytes → ℕ
checksum [] = 1
checksum (b ∷ rest) = (b + 3 * checksum rest) % 256

pub checksum-lt : (m : Bytes) → checksum m < 256
checksum-lt [] = omega arith
checksum-lt (b ∷ rest) = omega arith

abbrev pub toy_crypto : Crypto
toy_crypto = record {
  sha256 = λ m. checksum m ∷ pad 31;
  hmac_sha256 = λ k m. checksum (k ++ m) ∷ pad 31;
  utf8_encode = encode;
  utf8_decode = decode;
  sha256_bytes = λ m. (checksum-lt m, pad-bytes 31);
  hmac_bytes = λ k m. (checksum-lt (k ++ m), pad-bytes 31);
  hmac_length = λ k m. refl;
  utf8_bytes = encode-bytes;
  utf8_decodes = decode-encode_text;
}

pub data Document : Type 0 where
  request : Uuid → ConversionTagCreate → Document
  reply : ConversionTagOut → Document

abbrev pub validate : Document → Option ConversionTagOut
validate (request a d) = none
validate (reply out) = some out

abbrev pub dumps : Document → String
dumps (request a d) = d.name
dumps (reply out) = out.name

abbrev pub hex : Bytes → String
hex [] = ""
hex (b ∷ rest) = if leb b 96 then "u" else "l"

abbrev pub test_env : Env
test_env = record {
  Remote = MockMeta;
  Json = Document;
  sql = list_sql;
  adapter = mock_adapter (λ s. s);
  crypto = toy_crypto;
  sha256_hex = hex;
  json_dumps = dumps;
  dump_request = request;
  dump_out = reply;
  validate_out = validate;
  validate-dump = λ out. refl;
  name_before = λ s t. true;
  abs_hash = λ s. 41;
}

-- The cipher of the key "k".
abbrev pub cipher : TokenCipher
cipher = record { key = checksum (encode "k") ∷ pad 31 }

abbrev pub advertiser : Advertiser
advertiser = record {
  id = 1;
  name = "Shop";
  external_ref = "shop";
  meta_business_id = none;
  meta_ad_account_id = some "act_1";
  created_at = 5;
  updated_at = 5;
}

abbrev pub pixel : Pixel
pixel = record {
  id = 2;
  advertiser_id = 1;
  meta_pixel_id = "px_1";
  name = "Main";
  status = "active";
  created_at = 5;
  updated_at = 5;
}

abbrev pub token_row : OAuthToken
token_row = record {
  id = 3;
  advertiser_id = 1;
  provider = "meta";
  access_token_encrypted = encrypt toy_crypto cipher "tok";
  refresh_token_encrypted = some (encrypt toy_crypto cipher "again");
  expires_at = record { micros = 10 ^ 9; aware = false };
  scopes = some "ads_management";
  created_at = 5;
  updated_at = 5;
}

abbrev pub shop : Db Document
shop = record {
  advertisers = advertiser ∷ [];
  pixels = pixel ∷ [];
  conversion_tags = [];
  oauth_tokens = token_row ∷ [];
  idempotency_records = [];
}

abbrev pub meta_pixel : MetaPixel
meta_pixel = record { id = "px_1"; name = "Main"; status = "active" }

abbrev pub mock : MockMeta
mock = record {
  pixels =
      ("act_1", meta_pixel ∷ record { id = "px_2"; name = "Spare"; status = "active" } ∷ []) ∷ [];
  conversions = [];
  conversions_by_name = [];
  rate_limit_every = 0;
  inverse_fail_rate = none;
  call_counter = 0;
}

abbrev pub start : World MockMeta Document
start = record {
  committed = shop;
  working = shop;
  arrivals = [];
  clock = 1000;
  ticks = 10 ∷ 20 ∷ [];
  started = 1000;
  next_id = 10;
  remote = mock;
}

abbrev pub purchase : ConversionTagCreate
purchase = record {
  pixel_id = 2;
  name = "sale";
  event_type = "Purchase";
  category = "purchase";
  value = none;
  currency = none;
  rule = none;
}
