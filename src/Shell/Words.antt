-- ===== src/Shell/Words.antt =====
-- How a POSIX shell reads words: an independent description of quoting, which the script relies on.
-- Characters with a meaning of their own outside quotes are refused, and so are expansions.
use microsanbox_cloud.Prelude.{
  ℕ, Bool, ◌||◌, List, [], ◌∷◌, ◌++◌, Option, none, some, Text, ◌==◌, if◌then◌else◌, ◌&&◌, leb, any,
  codes,
}
use microsanbox_cloud.Shell.{quote, double_quote}

pub data Quoted : Type 0 where
  bare single double : Quoted

-- What a character does: it ends the word, it goes on in a mode with some text, or it is refused.
pub data Reading : Type 0 where
  ends refused : Reading
  reads : Quoted → Text → Reading

abbrev pub is_blank : ℕ → Bool
is_blank c = c == 32 || c == 9

-- Characters that stand for themselves outside quotes, wherever in a word they stand: no operator,
-- expansion, pattern, comment, assignment or history mark is among them.
unfoldable pub is_literal : ℕ → Bool
is_literal c =
    leb 48 c && leb c 57
    || leb 65 c && leb c 90
    || leb 97 c && leb c 122
    || any (λ x. x == c) (codes "%+,-./:@_")

-- `$`, a backquote and a backslash have a meaning in double quotes.
abbrev pub expands : ℕ → Bool
expands c = c == 36 || c == 96 || c == 92

unfoldable pub read_char : Quoted → ℕ → Reading
unfolding is_literal
read_char bare c =
    if is_blank c
    then ends
    else if c == quote
    then reads single []
    else if c == double_quote
    then reads double []
    else if is_literal c
    then reads bare (c ∷ [])
    else refused
read_char single c = if c == quote then reads bare [] else reads single (c ∷ [])
read_char double c =
    if c == double_quote
    then reads bare []
    else if expands c
    then refused
    else reads double (c ∷ [])

-- Between two words, or in one, of which some text has been read.
pub data Place : Type 0 where
  between : Place
  inside : Quoted → Text → Place

-- The words of a text; `none` where it has an open quote or a refused character.
unfoldable pub words : Place → Text → Option (List Text)
unfolding read_char
words between [] = some []
words (inside bare word) [] = some (word ∷ [])
words (inside single word) [] = none
words (inside double word) [] = none
words between (c ∷ s) = elim (read_char bare c) [
  | ends ↦ words between s
  | refused ↦ none
  | reads mode t ↦ words (inside mode t) s
]
words (inside mode word) (c ∷ s) = elim (read_char mode c) [
  | ends ↦ elim (words between s) [ none ↦ none | some ws ↦ some (word ∷ ws) ]
  | refused ↦ none
  | reads mode' t ↦ words (inside mode' (word ++ t)) s
]
