-- ===== src/Security/Xor.antt =====
-- `^` on bytes, by evaluation of all pairs, and the cipher's key stream.
use Prim.Native.Nat.{bit_xor}
use hub_meta_conversion_serv.Base.{ℕ, zero, suc, ◌<◌, ◌≡◌, refl, Bool, true, ◌&&◌, arith, ◌==◌, ltb}

all_below : ℕ → (ℕ → Bool) → Bool
all_below zero p = true
all_below (suc n) p = p n && all_below n p

all_below-holds : (n : ℕ) (p : ℕ → Bool) (x : ℕ) → all_below n p ≡ true → x < n → p x ≡ true
unfolding all_below
all_below-holds zero p x h lt = absurd (omega arith)
all_below-holds (suc n) p x h lt = ground (arith, all_below-holds n p x)

abbrev xor_test : ℕ → ℕ → Bool
xor_test k b = bit_xor (bit_xor b k) k == b && ltb (bit_xor b k) 256

xor_table : all_below 256 (λ k. all_below 256 (xor_test k)) ≡ true
unfolding all_below
xor_table = refl

xor_tested : (k b : ℕ) → k < 256 → b < 256 → xor_test k b ≡ true
xor_tested k b h l = all_below-holds 256 (xor_test k) b (all_below-holds 256 _ k xor_table h) l

pub bit_xor-bit_xor : (k b : ℕ) → k < 256 → b < 256 → bit_xor (bit_xor b k) k ≡ b
bit_xor-bit_xor k b h l = ground (arith, xor_tested k b h l)

pub bit_xor-lt : (k b : ℕ) → k < 256 → b < 256 → bit_xor b k < 256
bit_xor-lt k b h l = ground (arith, xor_tested k b h l)
