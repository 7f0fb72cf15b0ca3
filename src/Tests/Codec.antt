-- ===== src/Tests/Codec.antt =====
-- A codec of texts for the tests: three bytes for each character, the low one first.
use Prim.Native.Nat.{Ordering, compare}
use Prim.Native.Char.{Char, char, code, IsLt, IsScalar}
use Prim.Native.String.{[] as empty, ◌∷◌ as cons}
use hub_meta_conversion_serv.Base.{
  ℕ, ◌+◌, ◌*◌, ◌/◌, ◌%◌, ◌<◌, ◌≡◌, refl, ap, true, false, String, Option, none, some, [], ◌∷◌, ltb,
  ◌⊎◌, inl, inr, All, arith,
}
use hub_meta_conversion_serv.Models.{Bytes}

-- `IsScalar n` and `Scalar` of its three comparisons unfold to the same term.
abbrev Both : Ordering → Ordering → Type 0
Both Ordering.lt o = IsLt o
Both Ordering.eq o = ⊥
Both Ordering.gt o = ⊥

abbrev Scalar : Ordering → Ordering → Ordering → Type 0
Scalar Ordering.lt o p = Unit
Scalar Ordering.eq o p = Both o p
Scalar Ordering.gt o p = Both o p

abbrev as_lt : (o : Ordering) → Option (IsLt o)
as_lt Ordering.lt = some tt
as_lt Ordering.eq = none
as_lt Ordering.gt = none

abbrev as_both : (o p : Ordering) → Option (Both o p)
as_both Ordering.lt p = as_lt p
as_both Ordering.eq p = none
as_both Ordering.gt p = none

abbrev as_scalar : (o p q : Ordering) → Option (Scalar o p q)
as_scalar Ordering.lt p q = some tt
as_scalar Ordering.eq p q = as_both p q
as_scalar Ordering.gt p q = as_both p q

as_lt-some : (o : Ordering) (x : IsLt o) → as_lt o ≡ some x
as_lt-some Ordering.lt x = refl
as_lt-some Ordering.eq x = absurd x
as_lt-some Ordering.gt x = absurd x

as_both-some : (o p : Ordering) (x : Both o p) → as_both o p ≡ some x
as_both-some Ordering.lt p x = as_lt-some p x
as_both-some Ordering.eq p x = absurd x
as_both-some Ordering.gt p x = absurd x

as_scalar-some : (o p q : Ordering) (x : Scalar o p q) → as_scalar o p q ≡ some x
as_scalar-some Ordering.lt p q x = refl
as_scalar-some Ordering.eq p q x = as_both-some p q x
as_scalar-some Ordering.gt p q x = as_both-some p q x

abbrev as_char : (n : ℕ) → Option (IsScalar n) → Option Char
as_char n none = none
as_char n (some x) = some (char n x)

abbrev char_of : ℕ → Option Char
char_of n = as_char n (as_scalar (compare n 55296) (compare 57343 n) (compare n 1114112))

char_of-code : (n : ℕ) (x : IsScalar n) → char_of n ≡ some (char n x)
char_of-code n x =
    ap (as_char n) (as_scalar-some (compare n 55296) (compare 57343 n) (compare n 1114112) x)

lt_below : (o : Ordering) → IsLt o → (elim o [ Ordering.lt ↦ true | _ ↦ false ]) ≡ true
lt_below Ordering.lt x = refl
lt_below Ordering.eq x = absurd x
lt_below Ordering.gt x = absurd x

both_below : (o p : Ordering) → Both o p → (elim p [ Ordering.lt ↦ true | _ ↦ false ]) ≡ true
both_below Ordering.lt p x = lt_below p x
both_below Ordering.eq p x = absurd x
both_below Ordering.gt p x = absurd x

scalar_below :
    (o p q : Ordering)
    → Scalar o p q
    → ((elim o [ Ordering.lt ↦ true | _ ↦ false ]) ≡ true)
      ⊎ ((elim q [ Ordering.lt ↦ true | _ ↦ false ]) ≡ true)
scalar_below Ordering.lt p q x = inl refl
scalar_below Ordering.eq p q x = inr (both_below p q x)
scalar_below Ordering.gt p q x = inr (both_below p q x)

code-lt : (n : ℕ) → IsScalar n → n < 16777216
code-lt n x = elim (scalar_below (compare n 55296) (compare 57343 n) (compare n 1114112) x) [
  | inl a ↦ small a
  | inr b ↦ large b
]
  where
    small : ltb n 55296 ≡ true → n < 16777216
    small a = ground arith

    large : ltb n 1114112 ≡ true → n < 16777216
    large b = ground arith

abbrev pub encode : String → Bytes
encode empty = []
encode (cons c s) = code c % 256 ∷ code c / 256 % 256 ∷ code c / 65536 ∷ encode s

abbrev in_front : Option Char → Option String → Option String
in_front none s = none
in_front (some c) none = none
in_front (some c) (some s) = some (cons c s)

abbrev pub decode : Bytes → Option String
decode [] = some empty
decode (a ∷ []) = none
decode (a ∷ b ∷ []) = none
decode (a ∷ b ∷ c ∷ rest) = in_front (char_of (c * 65536 + b * 256 + a)) (decode rest)

digits : (n : ℕ) → n / 65536 * 65536 + n / 256 % 256 * 256 + n % 256 ≡ n
digits n = omega arith

pub decode-encode_text : (s : String) → decode (encode s) ≡ some s
decode-encode_text empty = refl
decode-encode_text (cons (char n x) s) = rw (digits n, char_of-code n x, decode-encode_text s)

pub encode-bytes : (s : String) → All (λ b. b < 256) (encode s)
encode-bytes empty = tt
encode-bytes (cons (char n x) s) =
    (omega arith, (omega arith, (high (code-lt n x), encode-bytes s)))
  where
    high : n < 16777216 → n / 65536 < 256
    high h = omega arith
