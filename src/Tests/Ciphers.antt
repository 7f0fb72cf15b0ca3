-- ===== src/Tests/Ciphers.antt =====
-- The theorems on token encryption at concrete inputs.
use hub_meta_conversion_serv.Base.{◌≡◌, ◌↔◌, refl, false, some, any, leb, take, drop}
use hub_meta_conversion_serv.Models.{Bytes}
use hub_meta_conversion_serv.Security.{token_cipher, encrypt, decrypt, xor}
use hub_meta_conversion_serv.Security.Base64.{urlsafe_b64decode}
use hub_meta_conversion_serv.Security.Integrity.{decrypt-encrypt, decrypt-some_iff}
use hub_meta_conversion_serv.Tests.World.{toy_crypto, cipher}

pub cipher_made : token_cipher toy_crypto "k" ≡ some cipher
unfolding token_cipher
cipher_made = refl

decrypt-encrypt_example :
    decrypt toy_crypto cipher (encrypt toy_crypto cipher "secret") ≡ some "secret"
decrypt-encrypt_example = decrypt-encrypt toy_crypto "k" cipher "secret" cipher_made

abbrev sealed : Bytes
sealed = encrypt toy_crypto cipher "secret"

decrypt-some_iff_example : (decrypt toy_crypto cipher sealed ≡ some "secret") ↔ (
    (any (λ c. leb 128 c) sealed ≡ false)
    × (raw : Bytes) × (urlsafe_b64decode sealed ≡ some raw)
    × (take 32 raw ≡ toy_crypto.hmac_sha256 cipher.key (drop 32 raw))
    × (toy_crypto.utf8_decode (xor cipher (drop 32 raw)) ≡ some "secret"))
decrypt-some_iff_example = decrypt-some_iff toy_crypto cipher sealed "secret"
