-- ===== src/Security/Keystream.antt =====
-- The key stream of `_xor` (app/core/security.py).
use hub_meta_conversion_serv.Base.{
  ℕ, zero, suc, ◌+◌, ◌%◌, ◌≡◌, refl, ap₂, [], ◌∷◌, arith, All, length, get_or,
}
use hub_meta_conversion_serv.Models.{Bytes}
use hub_meta_conversion_serv.Security.{IsByte, TokenCipher, xor_from, xor}
use hub_meta_conversion_serv.Security.Xor.{bit_xor-bit_xor, bit_xor-lt}

get_or-IsByte : (key : Bytes) (i : ℕ) → All IsByte key → IsByte (get_or key i 0)
get_or-IsByte [] i h = omega arith
get_or-IsByte (k ∷ key) zero h = h.0
get_or-IsByte (k ∷ key) (suc i) h = get_or-IsByte key i h.1

module _ (key : Bytes) (key_bytes : All IsByte key) where
  xor_from-xor_from :
      (i : ℕ) (bytes : Bytes) → All IsByte bytes → xor_from key i (xor_from key i bytes) ≡ bytes
  unfolding xor_from
  xor_from-xor_from i [] h = refl
  xor_from-xor_from i (b ∷ bytes) h =
      ap₂ ◌∷◌
        (bit_xor-bit_xor (get_or key (i % length key) 0) b
          (get_or-IsByte key (i % length key) key_bytes) h.0)
        (xor_from-xor_from (i + 1) bytes h.1)

  xor_from-IsByte : (i : ℕ) (bytes : Bytes) → All IsByte bytes → All IsByte (xor_from key i bytes)
  unfolding xor_from
  xor_from-IsByte i [] h = tt
  xor_from-IsByte i (b ∷ bytes) h = (
    bit_xor-lt (get_or key (i % length key) 0) b (get_or-IsByte key (i % length key) key_bytes) h.0,
    xor_from-IsByte (i + 1) bytes h.1,
  )

module _ (cipher : TokenCipher) (key_bytes : All IsByte cipher.key) where
  pub xor-xor : (bytes : Bytes) → All IsByte bytes → xor cipher (xor cipher bytes) ≡ bytes
  unfolding xor
  xor-xor = xor_from-xor_from cipher.key key_bytes 0

  pub xor-IsByte : (bytes : Bytes) → All IsByte bytes → All IsByte (xor cipher bytes)
  unfolding xor
  xor-IsByte = xor_from-IsByte cipher.key key_bytes 0
