-- ===== src/Security/Base64.antt =====
-- `base64.urlsafe_b64encode` and `urlsafe_b64decode` of the standard library, which the cipher of
-- app/core/security.py calls. The decoder is not strict: it skips what is not in the alphabet.
use hub_meta_conversion_serv.Base.{
  ℕ, ◌+◌, ◌-◌, ◌*◌, ◌/◌, ◌%◌, ◌&&◌, ◌||◌, Option, none, some, [], ◌∷◌, ◌==◌, ltb, leb,
  if◌then◌else◌,
}
use hub_meta_conversion_serv.Models.{Bytes}

-- The letter for six bits.
unfoldable pub letter : ℕ → ℕ
letter n =
    if ltb n 26
    then b'A' + n
    else if ltb n 52
    then b'a' + (n - 26)
    else if ltb n 62
    then b'0' + (n - 52)
    else if n == 62
    then b'-'
    else b'_'

-- The six bits of a letter. `-` and `_` have become `+` and `/` before the table is read, so both
-- spellings are letters.
unfoldable pub bits? : ℕ → Option ℕ
bits? c =
    if leb b'A' c && leb c b'Z'
    then some (c - b'A')
    else if leb b'a' c && leb c b'z'
    then some (c - b'a' + 26)
    else if leb b'0' c && leb c b'9'
    then some (c - b'0' + 52)
    else if c == b'-' || c == b'+'
    then some 62
    else if c == b'_' || c == b'/'
    then some 63
    else none

unfoldable pub urlsafe_b64encode : Bytes → Bytes
urlsafe_b64encode [] = []
urlsafe_b64encode (a ∷ []) = letter (a / 4) ∷ letter (a % 4 * 16) ∷ b'=' ∷ b'=' ∷ []
urlsafe_b64encode (a ∷ b ∷ []) =
    letter (a / 4) ∷ letter (a % 4 * 16 + b / 16) ∷ letter (b % 16 * 4) ∷ b'=' ∷ []
urlsafe_b64encode (a ∷ b ∷ c ∷ rest) =
    letter (a / 4)
    ∷ letter (a % 4 * 16 + b / 16)
    ∷ letter (b % 16 * 4 + c / 64)
    ∷ letter (c % 64)
    ∷ urlsafe_b64encode rest

-- The letters of the current group of four that were read, and what is left of their bits.
pub data Quad : Type 0 where
  fresh : Quad
  one two three : ℕ → Quad

-- What a character does: it ends the input, or moves on and may complete a byte. The number counts
-- the `=` in a row after at least two letters.
pub data Move : Type 0 where
  done : Move
  skip : Quad → ℕ → Move
  emit : ℕ → Quad → ℕ → Move

unfoldable pub pad : Quad → ℕ → Move
pad fresh pads = skip fresh pads
pad (one left) pads = skip (one left) pads
pad (two left) pads = if leb 4 (2 + (pads + 1)) then done else skip (two left) (pads + 1)
pad (three left) pads = done

unfoldable pub take_bits : Quad → ℕ → Move
take_bits fresh v = skip (one v) 0
take_bits (one left) v = emit (left * 4 + v / 16) (two (v % 16)) 0
take_bits (two left) v = emit (left * 16 + v / 4) (three (v % 4)) 0
take_bits (three left) v = emit (left * 64 + v) fresh 0

unfoldable pub move : Quad → ℕ → ℕ → Move
unfolding bits? pad take_bits
move quad pads c =
    if c == b'='
    then pad quad pads
    else elim (bits? c) [ none ↦ skip quad pads | some v ↦ take_bits quad v ]

abbrev pub prepend : ℕ → Option Bytes → Option Bytes
prepend b none = none
prepend b (some bytes) = some (b ∷ bytes)

-- The input may end only between two groups.
abbrev pub finish : Quad → Option Bytes
finish fresh = some []
finish (one _) = none
finish (two _) = none
finish (three _) = none

unfoldable pub decode_from : Quad → ℕ → Bytes → Option Bytes
decode_from quad pads [] = finish quad
decode_from quad pads (c ∷ rest) = elim (move quad pads c) [
  | done ↦ some []
  | skip quad' pads' ↦ decode_from quad' pads' rest
  | emit b quad' pads' ↦ prepend b (decode_from quad' pads' rest)
]

-- `none` is a `binascii.Error`.
unfoldable pub urlsafe_b64decode : Bytes → Option Bytes
unfolding decode_from
urlsafe_b64decode = decode_from fresh 0
