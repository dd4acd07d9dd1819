-- ===== src/Auth/Slugs.antt =====
-- backend/app/auth: the slug of a new organization, `slugify` of utils.py and `_ensure_unique_slug`
-- of router.py.
pub mod Unique
use compliance_pulse.Prelude.{
  ℕ, zero, suc, ◌+◌, Text, Bool, true, false, Option, none, some, List, [], ◌∷◌, ◌++◌, codes,
  is_empty, text_eq, or_else, any, length, where_rows, not, split_on, decimal, if◌then◌else◌,
}
use compliance_pulse.Models.Accounts.{Organization}

-- `str.isalnum` of one code point, and `str.lower` of one, which can give several
pub record Unicode : Type 0 where
  pub is_alnum : ℕ → Bool
  pub lower_char : ℕ → Text

-- `"".join(ch.lower() if ch.isalnum() else "-" for ch in value)`
unfoldable pub cleaned_chars : Unicode → Text → Text
cleaned_chars unicode [] = []
cleaned_chars unicode (ch ∷ value) =
    (if unicode.is_alnum ch then unicode.lower_char ch else b'-' ∷ [])
    ++ cleaned_chars unicode value

-- `"-".join(pieces)`
unfoldable pub join_dashes : List Text → Text
join_dashes [] = []
join_dashes (piece ∷ []) = piece
join_dashes (piece ∷ next ∷ pieces) = piece ++ b'-' ∷ join_dashes (next ∷ pieces)

-- `token` is what `secrets.token_hex(4)` would draw.
unfoldable pub slugify : Unicode → Text → Text → Text
unfolding cleaned_chars join_dashes split_on where_rows
slugify unicode token value =
    let pieces = split_on b'-' (cleaned_chars unicode value) in
    or_else (join_dashes (where_rows (λ piece. not (is_empty piece)) pieces)) token

-- `select(Organization).where(Organization.slug == slug)` finds a row.
unfoldable pub is_taken : List Organization → Text → Bool
unfolding any
is_taken organizations slug = any (λ (o : Organization). text_eq o.slug slug) organizations

-- `f"{base}-{counter}"`
unfoldable pub numbered : Text → ℕ → Text
unfolding decimal
numbered base counter = base ++ b'-' ∷ decimal counter

-- The loop, on fuel
unfoldable pub try_slugs : ℕ → List Organization → Text → Text → ℕ → Option Text
unfolding is_taken numbered
try_slugs zero organizations base slug counter = none
try_slugs (suc fuel) organizations base slug counter =
    let rest = try_slugs fuel organizations base (numbered base counter) (suc counter) in
    if is_taken organizations slug then rest else some slug

-- Each slug that is tried in vain is another organization's.
unfoldable pub ensure_unique_slug : Unicode → Text → List Organization → Text → Option Text
unfolding try_slugs slugify
ensure_unique_slug unicode token organizations name =
    let base = slugify unicode token name in
    try_slugs (suc (length organizations)) organizations base base 1
