-- ===== src/Config/Base64/RoundTrip.antt =====
-- Decoding gives back what the standard encoding was made from.
use docker_go_sdk.Common.{
  ℕ, ◌+◌, ◌-◌, ◌*◌, ◌/◌, ◌%◌, ◌<◌, ◌≡◌, ◌≢◌, refl, ◌∙◌, some, [], ◌∷◌, ◌++◌, ltb, ◌==◌,
  if◌then◌else◌, arith, All,
}
use docker_go_sdk.Common.Bytes.{Bytes}
use docker_go_sdk.Config.Base64.{
  sextet, strip_line_ends, one_byte, two_bytes, three_bytes, decode_quanta, decode, ◌>>=◌,
}

-- The character of six bits, by RFC 4648.
abbrev pub letter : ℕ → ℕ
letter v =
    if ltb v 26
    then v + b'A'
    else if ltb v 52
    then v - 26 + b'a'
    else if ltb v 62
    then v - 52 + b'0'
    else if v == 62
    then b'+'
    else b'/'

abbrev pub encode : Bytes → Bytes
encode [] = []
encode (x ∷ []) = letter (x / 4) ∷ letter (x % 4 * 16) ∷ b'=' ∷ b'=' ∷ []
encode (x ∷ y ∷ []) =
    letter (x / 4) ∷ letter (x % 4 * 16 + y / 16) ∷ letter (y % 16 * 4) ∷ b'=' ∷ []
encode (x ∷ y ∷ z ∷ s) =
    letter (x / 4)
    ∷ letter (x % 4 * 16 + y / 16)
    ∷ letter (y % 16 * 4 + z / 64)
    ∷ letter (z % 64)
    ∷ encode s

sextet-letter : (v : ℕ) → v < 64 → sextet (letter v) ≡ some v
unfolding sextet
sextet-letter v h = ground arith

letter-ne-pad : (v : ℕ) → letter v ≢ b'='
letter-ne-pad v = ground arith

strip-letter : (v : ℕ) (s : Bytes) → strip_line_ends (letter v ∷ s) ≡ letter v ∷ strip_line_ends s
unfolding strip_line_ends
strip-letter v s = ground arith

strip-pad : (s : Bytes) → strip_line_ends (b'=' ∷ s) ≡ b'=' ∷ strip_line_ends s
unfolding strip_line_ends
strip-pad s = refl

strip-nil : strip_line_ends [] ≡ []
unfolding strip_line_ends
strip-nil = refl

strip-encode : (s : Bytes) → strip_line_ends (encode s) ≡ encode s
strip-encode [] = strip-nil
strip-encode (x ∷ []) = simp (strip-letter, strip-pad, strip-nil)
strip-encode (x ∷ y ∷ []) = simp (strip-letter, strip-pad, strip-nil)
strip-encode (x ∷ y ∷ z ∷ s) = simp (strip-letter, strip-encode s)

-- A quantum of four letters stands for three bytes.
three_bytes-letter :
    (x y z : ℕ)
    → x < 256
    → y < 256
    → z < 256
    → three_bytes
        (letter (x / 4))
        (letter (x % 4 * 16 + y / 16))
        (letter (y % 16 * 4 + z / 64))
        (letter (z % 64))
      ≡ some (x ∷ y ∷ z ∷ [])
unfolding three_bytes
three_bytes-letter x y z hx hy hz =
    rw
      (
        sextet-letter (x / 4) (omega arith),
        sextet-letter (x % 4 * 16 + y / 16) (omega arith),
        sextet-letter (y % 16 * 4 + z / 64) (omega arith),
        sextet-letter (z % 64) (omega arith),
      )
      (ground arith)

two_bytes-letter :
    (x y : ℕ)
    → x < 256
    → y < 256
    → two_bytes (letter (x / 4)) (letter (x % 4 * 16 + y / 16)) (letter (y % 16 * 4))
      ≡ some (x ∷ y ∷ [])
unfolding two_bytes
two_bytes-letter x y hx hy =
    rw
      (
        sextet-letter (x / 4) (omega arith),
        sextet-letter (x % 4 * 16 + y / 16) (omega arith),
        sextet-letter (y % 16 * 4) (omega arith),
      )
      (ground arith)

one_byte-letter :
    (x : ℕ) → x < 256 → one_byte (letter (x / 4)) (letter (x % 4 * 16)) ≡ some (x ∷ [])
unfolding one_byte
one_byte-letter x hx =
    rw (sextet-letter (x / 4) (omega arith), sextet-letter (x % 4 * 16) (omega arith))
      (ground arith)

pub encode-cons : (x : ℕ) (s : Bytes) → encode (x ∷ s) ≢ []
encode-cons x [] = cc
encode-cons x (y ∷ []) = cc
encode-cons x (y ∷ z ∷ s) = cc

decode_quanta-cons :
    (a b c d : ℕ) (t : Bytes)
    → t ≢ []
    → decode_quanta (a ∷ b ∷ c ∷ d ∷ t)
      ≡ (three_bytes a b c d >>= λ bytes. decode_quanta t >>= λ more. some (bytes ++ more))
unfolding decode_quanta
decode_quanta-cons a b c d [] h = absurd (h refl)
decode_quanta-cons a b c d (e ∷ t) h = refl

decode_quanta_three :
    (a b c d : ℕ) → d ≢ b'=' → decode_quanta (a ∷ b ∷ c ∷ d ∷ []) ≡ three_bytes a b c d
unfolding decode_quanta
decode_quanta_three a b c d h = ground arith

decode_quanta_two : (a b c : ℕ) → c ≢ b'=' → decode_quanta (a ∷ b ∷ c ∷ b'=' ∷ []) ≡ two_bytes a b c
unfolding decode_quanta
decode_quanta_two a b c h = ground arith

abbrev pub IsByte : ℕ → Type 0
IsByte b = b < 256

decode_quanta-encode : (s : Bytes) → All IsByte s → decode_quanta (encode s) ≡ some s
unfolding decode_quanta
decode_quanta-encode [] h = refl
decode_quanta-encode (x ∷ []) (hx, _) = rw (one_byte-letter x hx)
decode_quanta-encode (x ∷ y ∷ []) (hx, (hy, _)) =
    decode_quanta_two _ _ _ (letter-ne-pad (y % 16 * 4)) ∙ two_bytes-letter x y hx hy
decode_quanta-encode (x ∷ y ∷ z ∷ []) (hx, (hy, (hz, _))) =
    decode_quanta_three _ _ _ _ (letter-ne-pad (z % 64)) ∙ three_bytes-letter x y z hx hy hz
decode_quanta-encode (x ∷ y ∷ z ∷ w ∷ s) (hx, (hy, (hz, h))) = rw (
  decode_quanta-cons _ _ _ _ (encode (w ∷ s)) (encode-cons w s),
  three_bytes-letter x y z hx hy hz,
  decode_quanta-encode (w ∷ s) h,
)

-- Decoding the standard encoding of a sequence of bytes gives the sequence.
pub decode-encode : (s : Bytes) → All IsByte s → decode (encode s) ≡ some s
unfolding decode
decode-encode s h = rw (strip-encode s) (decode_quanta-encode s h)
