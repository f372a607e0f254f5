-- ===== src/Container/Durable/Words.antt =====
-- How a POSIX shell reads a script of simple commands: the words of each line, with the quotations
-- removed. A byte with a meaning that is not treated here stops the reading.
use docker_go_sdk.Common.{
  ℕ, Bool, ◌≡◌, refl, ◌&&◌, ◌||◌, Option, none, some, List, [], ◌∷◌, ◌++◌, leb, ◌==◌, if◌then◌else◌,
}
use docker_go_sdk.Common.Bytes.{Bytes}

-- Where the reader stands: between words, in a comment, in a word, inside quotation marks, or
-- behind a backslash, with what it has of the word.
pub data Mode : Type 0 where
  between : Mode
  comment : Mode
  word : Bytes → Mode
  quoted : Bytes → Mode
  escaped : Bytes → Mode
  stopped : Mode

-- With the words of the line and the lines before it.
pub record Reader : Type 0 where
  pub mode : Mode
  pub words : List Bytes
  pub lines : List (List Bytes)

pub data Kind : Type 0 where
  newline : Kind
  blank : Kind
  quote : Kind
  backslash : Kind
  hash : Kind
  plain : Kind
  special : Kind

-- Letters, digits and `-./:=_` stand for themselves.
abbrev pub is_plain : ℕ → Bool
is_plain c =
    (leb b'a' c && leb c b'z')
    || (leb b'A' c && leb c b'Z')
    || (leb b'-' c && leb c b':')
    || c == b'='
    || c == b'_'

unfoldable pub kind_of : ℕ → Kind
kind_of c =
    if c == b'\n'
    then newline
    else if c == b' '
    then blank
    else if c == b'\''
    then quote
    else if c == b'\\'
    then backslash
    else if c == b'#'
    then hash
    else if is_plain c
    then plain
    else special

abbrev pub end_line : List Bytes → List (List Bytes) → List (List Bytes)
end_line [] lines = lines
end_line (w ∷ words) lines = lines ++ (w ∷ words) ∷ []

abbrev pub read : Kind → ℕ → Mode → List Bytes → List (List Bytes) → Reader
read newline c between ws ls = record { mode = between; words = []; lines = end_line ws ls }
read blank c between ws ls = record { mode = between; words = ws; lines = ls }
read quote c between ws ls = record { mode = quoted []; words = ws; lines = ls }
read backslash c between ws ls = record { mode = escaped []; words = ws; lines = ls }
read hash c between ws ls = record { mode = comment; words = ws; lines = ls }
read plain c between ws ls = record { mode = word (c ∷ []); words = ws; lines = ls }
read special c between ws ls = record { mode = stopped; words = ws; lines = ls }
read newline c comment ws ls = record { mode = between; words = []; lines = end_line ws ls }
read _ c comment ws ls = record { mode = comment; words = ws; lines = ls }
read newline c (word w) ws ls = record {
  mode = between;
  words = [];
  lines = end_line (ws ++ w ∷ []) ls;
}
read blank c (word w) ws ls = record { mode = between; words = ws ++ w ∷ []; lines = ls }
read quote c (word w) ws ls = record { mode = quoted w; words = ws; lines = ls }
read backslash c (word w) ws ls = record { mode = escaped w; words = ws; lines = ls }
read special c (word w) ws ls = record { mode = stopped; words = ws; lines = ls }
read hash c (word w) ws ls = record { mode = word (w ++ c ∷ []); words = ws; lines = ls }
read plain c (word w) ws ls = record { mode = word (w ++ c ∷ []); words = ws; lines = ls }
read quote c (quoted w) ws ls = record { mode = word w; words = ws; lines = ls }
read _ c (quoted w) ws ls = record { mode = quoted (w ++ c ∷ []); words = ws; lines = ls }
read newline c (escaped w) ws ls = record { mode = stopped; words = ws; lines = ls }
read _ c (escaped w) ws ls = record { mode = word (w ++ c ∷ []); words = ws; lines = ls }
read _ c stopped ws ls = record { mode = stopped; words = ws; lines = ls }

-- Read a text from a state.
unfoldable pub feed : Reader → Bytes → Reader
unfolding kind_of
feed r [] = r
feed r (c ∷ s) = feed (read (kind_of c) c r.mode r.words r.lines) s

-- At the start of a line, after these lines.
abbrev pub at_line : List (List Bytes) → Reader
at_line lines = record { mode = between; words = []; lines = lines }

-- The commands of a script that ends with a whole line.
abbrev pub finished : Reader → Option (List (List Bytes))
finished r = elim r.mode [ between ↦ some r.lines | _ ↦ none ]

unfoldable pub shell_commands : Bytes → Option (List (List Bytes))
unfolding feed
shell_commands script = finished (feed (at_line []) script)

pub feed-append : (r : Reader) (s t : Bytes) → feed r (s ++ t) ≡ feed (feed r s) t
unfolding feed
feed-append r [] t = refl
feed-append r (c ∷ s) t = feed-append (read (kind_of c) c r.mode r.words r.lines) s t
