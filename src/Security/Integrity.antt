-- ===== src/Security/Integrity.antt =====
-- `decrypt` of app/core/security.py: which tokens it accepts.
use hub_meta_conversion_serv.Base.{
  ◌≡◌, ◌↔◌, true, false, String, some, [], ◌∷◌, ◌++◌, refl, arith, All, All-append, any, leb, take,
  drop, take-append, drop-append, Option-cases, inl, inr,
}
use hub_meta_conversion_serv.Models.{Bytes}
use hub_meta_conversion_serv.Security.{
  IsByte, Crypto, TokenCipher, bytes_eq, xor, token_cipher, encrypt, unseal, or_unseal, decrypt,
}
use hub_meta_conversion_serv.Security.Base64.{urlsafe_b64decode}
use hub_meta_conversion_serv.Security.RoundTrip.{decode-encode, encode-ascii}
use hub_meta_conversion_serv.Security.Keystream.{xor-xor, xor-IsByte}

bytes_eq_refl : (xs : Bytes) → bytes_eq xs xs ≡ true
bytes_eq_refl [] = refl
bytes_eq_refl (x ∷ xs) = ground (arith, bytes_eq_refl xs)

bytes_eq→eq : (xs ys : Bytes) → bytes_eq xs ys ≡ true → xs ≡ ys
bytes_eq→eq [] [] h = refl
bytes_eq→eq [] (y ∷ ys) h = cc
bytes_eq→eq (x ∷ xs) [] h = cc
bytes_eq→eq (x ∷ xs) (y ∷ ys) h = ground (arith, bytes_eq→eq xs ys)

module _ (crypto : Crypto) where
  cipher-bytes :
      (key : String) (cipher : TokenCipher)
      → token_cipher crypto key ≡ some cipher
      → All IsByte cipher.key
  unfolding token_cipher
  cipher-bytes key cipher e = ground (arith, crypto.sha256_bytes (crypto.utf8_encode key))

  -- The code comes back, and the ciphertext behind it.
  unseal-seal :
      (cipher : TokenCipher) (s : String)
      → All IsByte cipher.key
      → let c = xor cipher (crypto.utf8_encode s) in
        unseal crypto cipher (crypto.hmac_sha256 cipher.key c ++ c) ≡ some s
  unfolding unseal
  unseal-seal cipher s h =
      let c = xor cipher (crypto.utf8_encode s) in
      let mac = crypto.hmac_sha256 cipher.key c in
      rw (take-append 32 mac c (crypto.hmac_length cipher.key c)) (
        rw (drop-append 32 mac c (crypto.hmac_length cipher.key c)) (
          rw (bytes_eq_refl mac) (
            rw (xor-xor cipher h (crypto.utf8_encode s) (crypto.utf8_bytes s))
              (crypto.utf8_decodes s))))

  -- A cipher made from any key that is accepted decrypts what it encrypted, for every text.
  pub decrypt-encrypt :
      (key : String) (cipher : TokenCipher) (plaintext : String)
      → token_cipher crypto key ≡ some cipher
      → decrypt crypto cipher (encrypt crypto cipher plaintext) ≡ some plaintext
  unfolding decrypt encrypt
  decrypt-encrypt key cipher plaintext e =
      let c = xor cipher (crypto.utf8_encode plaintext) in
      let raw = crypto.hmac_sha256 cipher.key c ++ c in
      let key_bytes = cipher-bytes key cipher e in
      let raw_bytes =
        All-append IsByte (crypto.hmac_sha256 cipher.key c) c (crypto.hmac_bytes cipher.key c) (
          xor-IsByte cipher key_bytes (crypto.utf8_encode plaintext)
            (crypto.utf8_bytes plaintext)) in
      rw (encode-ascii raw raw_bytes) (
        rw (decode-encode raw raw_bytes)
          (unfold or_unseal in unseal-seal cipher plaintext key_bytes))

  -- `decrypt` accepts a token with a text exactly if the token is ASCII and the base64 of bytes of
  -- which the first 32 are the code of the rest under the cipher's key, and the rest deciphers to
  -- UTF-8 of that text.
  pub decrypt-some_iff :
      (cipher : TokenCipher) (token : Bytes) (s : String)
      → (decrypt crypto cipher token ≡ some s) ↔ (
          (any (λ c. leb 128 c) token ≡ false)
          × (raw : Bytes) × (urlsafe_b64decode token ≡ some raw)
          × (take 32 raw ≡ crypto.hmac_sha256 cipher.key (drop 32 raw))
          × (crypto.utf8_decode (xor cipher (drop 32 raw)) ≡ some s))
  unfolding decrypt or_unseal unseal
  decrypt-some_iff cipher token s = (accepted, accepts)
    where
      accepted :
          decrypt crypto cipher token ≡ some s
          → (any (λ c. leb 128 c) token ≡ false)
            × (raw : Bytes) × (urlsafe_b64decode token ≡ some raw)
            × (take 32 raw ≡ crypto.hmac_sha256 cipher.key (drop 32 raw))
            × (crypto.utf8_decode (xor cipher (drop 32 raw)) ≡ some s)
      accepted h = elim (Option-cases (urlsafe_b64decode token)) [
        | inl e ↦ ground arith
        | inr (raw, e) ↦ (
          ground arith,
          raw,
          e,
          bytes_eq→eq (take 32 raw) (crypto.hmac_sha256 cipher.key (drop 32 raw)) (ground arith),
          ground arith,
        )
      ]

      accepts :
          (any (λ c. leb 128 c) token ≡ false)
            × (raw : Bytes) × (urlsafe_b64decode token ≡ some raw)
            × (take 32 raw ≡ crypto.hmac_sha256 cipher.key (drop 32 raw))
            × (crypto.utf8_decode (xor cipher (drop 32 raw)) ≡ some s)
          → decrypt crypto cipher token ≡ some s
      accepts (a, raw, b, c, d) =
          rw (a, b, c) (rw (bytes_eq_refl (crypto.hmac_sha256 cipher.key (drop 32 raw))) d)
