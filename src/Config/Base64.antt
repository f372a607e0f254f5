-- ===== src/Config/Base64.antt =====
-- `base64.StdEncoding.Decode`, which config/config.go calls: padded, and passing over line ends.
pub mod RoundTrip
use docker_go_sdk.Common.{
  ℕ, ◌+◌, ◌-◌, ◌*◌, ◌/◌, ◌%◌, Bool, true, false, ◌&&◌, ◌||◌, Option, none, some, [], ◌∷◌, ◌++◌, leb,
  ◌==◌, if◌then◌else◌,
}
use docker_go_sdk.Common.Bytes.{Bytes}

-- The six bits of a character of the alphabet.
unfoldable pub sextet : ℕ → Option ℕ
sextet c =
    if leb b'A' c && leb c b'Z'
    then some (c - b'A')
    else if leb b'a' c && leb c b'z'
    then some (c - b'a' + 26)
    else if leb b'0' c && leb c b'9'
    then some (c - b'0' + 52)
    else if c == b'+'
    then some 62
    else if c == b'/'
    then some 63
    else none

unfoldable pub strip_line_ends : Bytes → Bytes
strip_line_ends [] = []
strip_line_ends (c ∷ s) =
    let rest = strip_line_ends s in if c == 0x0a || c == 0x0d then rest else c ∷ rest

infixl 5 ◌>>=◌
abbrev pub ◌>>=◌ : {A B : Type 0} → Option A → (A → Option B) → Option B
none >>= f = none
some a >>= f = f a

-- The last quantum, with two characters of padding, or with one.
unfoldable pub one_byte : ℕ → ℕ → Option Bytes
unfolding sextet
one_byte a b = do x ← sextet a; y ← sextet b; some ((x * 4 + y / 16) ∷ [])

unfoldable pub two_bytes : ℕ → ℕ → ℕ → Option Bytes
unfolding sextet
two_bytes a b c = do
  x ← sextet a
  y ← sextet b
  z ← sextet c
  some ((x * 4 + y / 16) ∷ (y % 16 * 16 + z / 4) ∷ [])

unfoldable pub three_bytes : ℕ → ℕ → ℕ → ℕ → Option Bytes
unfolding sextet
three_bytes a b c d = do
  x ← sextet a
  y ← sextet b
  z ← sextet c
  w ← sextet d
  some ((x * 4 + y / 16) ∷ (y % 16 * 16 + z / 4) ∷ (z % 4 * 64 + w) ∷ [])

-- The last quantum ends the input.
abbrev last_quantum : ℕ → ℕ → ℕ → ℕ → Option Bytes
last_quantum a b c d =
    if d == b'=' then (if c == b'=' then one_byte a b else two_bytes a b c) else three_bytes a b c d

-- Quanta of four characters; `none` is a corrupt input.
unfoldable pub decode_quanta : Bytes → Option Bytes
decode_quanta [] = some []
decode_quanta (a ∷ b ∷ c ∷ d ∷ []) = last_quantum a b c d
decode_quanta (a ∷ b ∷ c ∷ d ∷ e ∷ s) =
    let rest = decode_quanta (e ∷ s) in
    do bytes ← three_bytes a b c d; more ← rest; some (bytes ++ more)
decode_quanta _ = none

unfoldable pub decode : Bytes → Option Bytes
unfolding decode_quanta one_byte two_bytes three_bytes strip_line_ends
decode s = decode_quanta (strip_line_ends s)
