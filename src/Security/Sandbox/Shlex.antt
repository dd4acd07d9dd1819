-- ===== src/Security/Sandbox/Shlex.antt =====
-- Python's `shlex.split` (POSIX rules, no comments) and `pathlib.PurePosixPath.name`.
use compliance_pulse.Prelude.{
  ℕ, Text, Bool, true, false, ◌≡◌, refl, List, [], ◌∷◌, codes, ◌==◌, ◌||◌, ◌&&◌, not, is_empty,
  text_eq, split_on, where_rows, if◌then◌else◌,
}
use mathlib.Core.List.{reverse}
use compliance_pulse.Session.Monad.{Result, ok, err, value_error}

-- The lexer's state: between words, in a word, in quotes, or behind a backslash.
pub data Mode : Type 0 where
  space word : Mode
  quote : ℕ → Mode
  escape_in_word : Mode
  escape_in_quote : ℕ → Mode

abbrev cons_token : Text → Result (List Text) → Result (List Text)
cons_token token (ok tokens) = ok (token ∷ tokens)
cons_token token (err e) = err e

is_blank : ℕ → Bool
is_blank c = c == 32 || c == 9 || c == 10 || c == 13

is_quote : ℕ → Bool
is_quote c = c == 39 || c == 34

-- A word ends; an empty one counts if it was quoted.
emit : Text → Bool → Result (List Text) → Result (List Text)
emit token quoted rest =
    if is_empty token && not quoted then rest else cons_token (reverse token) rest

-- The token is read in reverse; `quoted` says that quotes were seen in it.
lex : Mode → Text → Bool → Text → Result (List Text)
lex space token quoted [] = ok []
lex word token quoted [] = emit token quoted (ok [])
lex (quote q) token quoted [] = err (value_error (codes "No closing quotation"))
lex escape_in_word token quoted [] = err (value_error (codes "No escaped character"))
lex (escape_in_quote q) token quoted [] = err (value_error (codes "No escaped character"))
lex space token quoted (c ∷ s) =
    if is_blank c
    then lex space [] false s
    else if c == 92
    then lex escape_in_word [] false s
    else if is_quote c
    then lex (quote c) [] true s
    else lex word (c ∷ []) false s
lex word token quoted (c ∷ s) =
    if is_blank c
    then emit token quoted (lex space [] false s)
    else if is_quote c
    then lex (quote c) token true s
    else if c == 92
    then lex escape_in_word token quoted s
    else lex word (c ∷ token) quoted s
lex (quote q) token quoted (c ∷ s) =
    if c == q
    then lex word token true s
    else if c == 92 && q == 34
    then lex (escape_in_quote q) token true s
    else lex (quote q) (c ∷ token) true s
lex escape_in_word token quoted (c ∷ s) = lex word (c ∷ token) quoted s
lex (escape_in_quote q) token quoted (c ∷ s) =
    lex (quote q) (if c == 92 || c == q then c ∷ token else c ∷ 92 ∷ token) true s

unfoldable pub shlex_split : Text → Result (List Text)
unfolding is_blank is_quote emit lex
shlex_split = lex space [] false

last_or : Text → List Text → Text
last_or d [] = d
last_or d (x ∷ xs) = last_or x xs

-- `Path(p).name`: the last component that is neither empty nor a dot.
unfoldable pub path_name : Text → Text
unfolding last_or
path_name p =
    last_or []
      (where_rows (λ part. not (is_empty part) && not (text_eq part (codes "."))) (split_on b'/' p))

splits :
    (shlex_split (codes "/usr/bin/cat  '/etc/os release' \"a\\\"b\"")
      ≡ ok (codes "/usr/bin/cat" ∷ codes "/etc/os release" ∷ codes "a\"b" ∷ []))
    × (path_name (codes "/usr/bin/cat") ≡ codes "cat")
unfolding shlex_split path_name split_on where_rows text_eq
splits = (refl, refl)
