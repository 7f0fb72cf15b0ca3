-- ===== src/Security/RoundTrip.antt =====
-- Base64 there and back, for `encrypt` and `decrypt` of app/core/security.py.
use hub_meta_conversion_serv.Base.{
  ℕ, ◌+◌, ◌*◌, ◌/◌, ◌%◌, ◌<◌, ◌≡◌, refl, ap, ap₂, ◌∙◌, false, some, [], ◌∷◌, ◌==◌, arith, All, any,
  leb,
}
use hub_meta_conversion_serv.Models.{Bytes}
use hub_meta_conversion_serv.Security.{IsByte}
use hub_meta_conversion_serv.Security.Base64.{
  letter, bits?, urlsafe_b64encode, Quad, fresh, one, two, three, pad, move, take_bits, prepend,
  decode_from, urlsafe_b64decode,
}

bits?-letter : (n : ℕ) → n < 64 → bits? (letter n) ≡ some n
unfolding bits? letter
bits?-letter n h = ground arith

letter-ne-pad : (n : ℕ) → n < 64 → (letter n == b'=') ≡ false
unfolding letter
letter-ne-pad n h = ground arith

pub letter-lt : (n : ℕ) → n < 64 → letter n < 128
unfolding letter
letter-lt n h = ground arith

move-letter : (q : Quad) (p n : ℕ) → n < 64 → move q p (letter n) ≡ take_bits q n
unfolding move
move-letter q p n h = rw (letter-ne-pad n h, bits?-letter n h)

step-fresh :
    (p n : ℕ) (rest : Bytes)
    → n < 64
    → decode_from fresh p (letter n ∷ rest) ≡ decode_from (one n) 0 rest
unfolding decode_from take_bits
step-fresh p n rest h = rw (move-letter fresh p n h, decode_from)

step-one :
    (l p n : ℕ) (rest : Bytes)
    → n < 64
    → decode_from (one l) p (letter n ∷ rest)
      ≡ prepend (l * 4 + n / 16) (decode_from (two (n % 16)) 0 rest)
unfolding decode_from take_bits
step-one l p n rest h = rw (move-letter (one l) p n h, decode_from)

step-two :
    (l p n : ℕ) (rest : Bytes)
    → n < 64
    → decode_from (two l) p (letter n ∷ rest)
      ≡ prepend (l * 16 + n / 4) (decode_from (three (n % 4)) 0 rest)
unfolding decode_from take_bits
step-two l p n rest h = rw (move-letter (two l) p n h, decode_from)

step-three :
    (l p n : ℕ) (rest : Bytes)
    → n < 64
    → decode_from (three l) p (letter n ∷ rest) ≡ prepend (l * 64 + n) (decode_from fresh 0 rest)
unfolding decode_from take_bits
step-three l p n rest h = rw (move-letter (three l) p n h, decode_from)

-- Two letters begin a group and complete its first byte.
pair :
    (a x p : ℕ) (rest : Bytes)
    → a < 256
    → x < 16
    → decode_from fresh p (letter (a / 4) ∷ letter (a % 4 * 16 + x) ∷ rest)
      ≡ prepend a (decode_from (two x) 0 rest)
pair a x p rest h k = rw (step-fresh p (a / 4) (letter (a % 4 * 16 + x) ∷ rest) (omega arith)) (
    rw (step-one (a / 4) 0 (a % 4 * 16 + x) rest (omega arith))
      (ap₂ (λ u v. prepend u (decode_from (two v) 0 rest)) (omega arith) (omega arith)))

third :
    (b y x p : ℕ) (rest : Bytes)
    → b < 256
    → y < 4
    → x ≡ b / 16
    → decode_from (two x) p (letter (b % 16 * 4 + y) ∷ rest)
      ≡ prepend b (decode_from (three y) 0 rest)
third b y x p rest h k e =
    rw (step-two x p (b % 16 * 4 + y) rest (omega arith))
      (ap₂ (λ u v. prepend u (decode_from (three v) 0 rest)) (omega arith) (omega arith))

-- The decoder undoes the encoder on every sequence of bytes.
pub decode_from-encode :
    (xs : Bytes) → All IsByte xs → decode_from fresh 0 (urlsafe_b64encode xs) ≡ some xs
unfolding urlsafe_b64encode
decode_from-encode [] h = unfold decode_from in refl
decode_from-encode (a ∷ []) h =
    ap (λ x. decode_from fresh 0 (letter (a / 4) ∷ letter x ∷ b'=' ∷ b'=' ∷ [])) (omega arith)
    ∙ pair a 0 0 (b'=' ∷ b'=' ∷ []) h.0 (omega arith)
    ∙ (unfold decode_from move pad in refl)
decode_from-encode (a ∷ b ∷ []) h =
    pair a (b / 16) 0 _ h.0 (omega arith)
    ∙ ap (λ x. prepend a (decode_from (two (b / 16)) 0 (letter x ∷ b'=' ∷ []))) (omega arith)
    ∙ ap (prepend a) (third b 0 (b / 16) 0 (b'=' ∷ []) h.1.0 (omega arith) refl)
    ∙ (unfold decode_from move pad in refl)
decode_from-encode (a ∷ b ∷ c ∷ rest) h = rw (pair a (b / 16) 0 _ h.0 (omega arith)) (
    rw (third b (c / 64) (b / 16) 0 _ h.1.0 (omega arith) refl) (
      rw (step-three (c / 64) 0 (c % 64) _ (omega arith)) (
        ap₂ (λ u v. prepend a (prepend b (prepend u v))) (omega arith)
          (decode_from-encode rest h.1.1.1))))

-- Decoding the URL-safe base64 of any list of bytes gives that list back.
pub decode-encode :
    (xs : Bytes) → All IsByte xs → urlsafe_b64decode (urlsafe_b64encode xs) ≡ some xs
unfolding urlsafe_b64decode
decode-encode = decode_from-encode

-- The encoder writes ASCII.
pub encode-ascii :
    (xs : Bytes) → All IsByte xs → any (λ c. leb 128 c) (urlsafe_b64encode xs) ≡ false
unfolding urlsafe_b64encode
encode-ascii [] h = refl
encode-ascii (a ∷ []) h = ground (arith, letter-lt (a / 4), letter-lt (a % 4 * 16))
encode-ascii (a ∷ b ∷ []) h =
    ground (arith, letter-lt (a / 4), letter-lt (a % 4 * 16 + b / 16), letter-lt (b % 16 * 4))
encode-ascii (a ∷ b ∷ c ∷ rest) h = ground (
  arith,
  letter-lt (a / 4),
  letter-lt (a % 4 * 16 + b / 16),
  letter-lt (b % 16 * 4 + c / 64),
  letter-lt (c % 64),
  encode-ascii rest,
)
