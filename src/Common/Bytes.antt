-- ===== src/Common/Bytes.antt =====
-- Go strings that the source walks through, as lists of bytes, with the functions of the packages
-- `strings` and `bytes` that it calls.
pub mod Laws
use Prim.Native.Nat.{ℕ, zero, suc, ◌+◌}
use Prim.Native.Char.{code}
use Prim.Native.String.{String}
use mathlib.Core.Bool.{Bool, true, false, ◌&&◌, ◌||◌}
use mathlib.Core.Option.{Option, none, some}
use mathlib.Core.List.{List, [], ◌∷◌, ◌++◌}
use docker_go_sdk.Common.Tests.{leb, ◌==◌, if◌then◌else◌}

abbrev pub Bytes : Type 0
Bytes = List ℕ

-- The bytes of a text, if it is ASCII.
abbrev pub codes : String → Bytes
codes String.[] = []
codes (String.◌∷◌ c s) = code c ∷ codes s

unfoldable pub bytes_eq : Bytes → Bytes → Bool
bytes_eq [] [] = true
bytes_eq (x ∷ xs) (y ∷ ys) = x == y && bytes_eq xs ys
bytes_eq _ _ = false

-- What is left of the text behind the prefix, if it has it: `strings.CutPrefix`, from which the
-- tests `HasPrefix` and `TrimPrefix` are read.
unfoldable pub cut_prefix : Bytes → Bytes → Option Bytes
cut_prefix [] s = some s
cut_prefix (p ∷ ps) [] = none
cut_prefix (p ∷ ps) (c ∷ s) = if p == c then cut_prefix ps s else none

abbrev pub is_some {ℓ} : {A : Type ℓ} → Option A → Bool
is_some none = false
is_some (some a) = true

-- `strings.HasPrefix(s, prefix)`, with the prefix first.
abbrev pub has_prefix : Bytes → Bytes → Bool
has_prefix prefix s = is_some (cut_prefix prefix s)

-- `strings.HasSuffix(s, suffix)`, with the suffix first.
unfoldable pub has_suffix : Bytes → Bytes → Bool
has_suffix suffix [] = bytes_eq suffix []
has_suffix suffix (c ∷ s) = bytes_eq suffix (c ∷ s) || has_suffix suffix s

-- `strings.Cut(s, sep)` for a separator of one byte: the texts before and after its first
-- occurrence.
unfoldable pub cut_byte : ℕ → Bytes → Option (Bytes × Bytes)
cut_byte sep [] = none
cut_byte sep (c ∷ s) =
    let rest = cut_byte sep s in
    if c == sep
    then some ([], s)
    else elim rest [ none ↦ none | some (before, after) ↦ some (c ∷ before, after) ]

abbrev extend : Bool → ℕ → List Bytes → List Bytes
extend true c parts = [] ∷ parts
extend false c [] = (c ∷ []) ∷ []
extend false c (part ∷ parts) = (c ∷ part) ∷ parts

-- `strings.Split(s, sep)` for a separator of one byte.
unfoldable pub split : ℕ → Bytes → List Bytes
split sep [] = [] ∷ []
split sep (c ∷ s) = extend (c == sep) c (split sep s)

is_space : ℕ → Bool
is_space c = c == 0x20 || (leb 0x09 c && leb c 0x0d)

trim_left : Bytes → Bytes
trim_left [] = []
trim_left (c ∷ s) = let rest = trim_left s in if is_space c then rest else c ∷ s

abbrev cons_visible : ℕ → Bytes → Bool → Bytes
cons_visible c [] true = []
cons_visible c s space = c ∷ s

trim_right : Bytes → Bytes
trim_right [] = []
trim_right (c ∷ s) = cons_visible c (trim_right s) (is_space c)

-- `strings.TrimSpace` for ASCII text: without the white space at both ends.
unfoldable pub trim_space : Bytes → Bytes
unfolding is_space trim_left trim_right
trim_space s = trim_right (trim_left s)
