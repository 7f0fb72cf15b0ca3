-- ===== src/Security.antt =====
-- Token encryption (app/core/security.py).
pub mod Base64
mod Xor
pub mod Keystream
pub mod RoundTrip
pub mod Integrity
use Prim.Native.Nat.{bit_xor}
use hub_meta_conversion_serv.Base.{
  ℕ, ◌+◌, ◌%◌, ◌<◌, ◌≡◌, Bool, true, false, ◌&&◌, String, Option, none, some, List, [], ◌∷◌, ◌++◌,
  ◌==◌, leb, str_eq, if◌then◌else◌, All, any, length, get_or, take, drop,
}
use hub_meta_conversion_serv.Models.{Bytes}
use hub_meta_conversion_serv.Security.Base64.{urlsafe_b64encode, urlsafe_b64decode}

abbrev pub IsByte : ℕ → Type 0
IsByte b = b < 256

-- The primitives of `hashlib`, `hmac` and `str` that the cipher calls.
pub record Crypto : Type 0 where
  pub sha256 : Bytes → Bytes
  pub hmac_sha256 : Bytes → Bytes → Bytes
  pub utf8_encode : String → Bytes
  pub utf8_decode : Bytes → Option String
  pub sha256_bytes : (m : Bytes) → All IsByte (sha256 m)
  pub hmac_bytes : (k m : Bytes) → All IsByte (hmac_sha256 k m)
  pub hmac_length : (k m : Bytes) → length (hmac_sha256 k m) ≡ 32
  pub utf8_bytes : (s : String) → All IsByte (utf8_encode s)
  pub utf8_decodes : (s : String) → utf8_decode (utf8_encode s) ≡ some s

abbrev pub bytes_eq : Bytes → Bytes → Bool
bytes_eq [] [] = true
bytes_eq [] (y ∷ ys) = false
bytes_eq (x ∷ xs) [] = false
bytes_eq (x ∷ xs) (y ∷ ys) = x == y && bytes_eq xs ys

-- The `TokenCipher` object holds the digest of its key.
pub record TokenCipher : Type 0 where
  pub key : Bytes

-- The generator of `_xor`, from position `i` on.
unfoldable pub xor_from : Bytes → ℕ → Bytes → Bytes
xor_from key i [] = []
xor_from key i (b ∷ data_rest) =
    bit_xor b (get_or key (i % length key) 0) ∷ xor_from key (i + 1) data_rest

unfoldable pub xor : TokenCipher → Bytes → Bytes
unfolding xor_from
xor cipher bytes = xor_from cipher.key 0 bytes

module _ (crypto : Crypto) where
  -- `none` is a `ValueError`.
  unfoldable pub token_cipher : String → Option TokenCipher
  token_cipher key =
      if str_eq key "" then none else some (record { key = crypto.sha256 (crypto.utf8_encode key) })

  unfoldable pub encrypt : TokenCipher → String → Bytes
  encrypt cipher plaintext =
      let ciphertext = xor cipher (crypto.utf8_encode plaintext) in
      urlsafe_b64encode (crypto.hmac_sha256 cipher.key ciphertext ++ ciphertext)

  -- The part of `decrypt` after the base64 is read.
  unfoldable pub unseal : TokenCipher → Bytes → Option String
  unseal cipher raw =
      let mac = take 32 raw in
      let ciphertext = drop 32 raw in
      if bytes_eq mac (crypto.hmac_sha256 cipher.key ciphertext)
      then crypto.utf8_decode (xor cipher ciphertext)
      else none

  unfoldable pub or_unseal : TokenCipher → Option Bytes → Option String
  or_unseal cipher none = none
  or_unseal cipher (some raw) = unseal cipher raw

  -- `none` is a `ValueError`: of the encoding to ASCII, of the base64, of the integrity check, or of
  -- the decoding from UTF-8.
  unfoldable pub decrypt : TokenCipher → Bytes → Option String
  decrypt cipher token =
      if any (λ c. leb 128 c) token then none else or_unseal cipher (urlsafe_b64decode token)
