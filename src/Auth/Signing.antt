-- ===== src/Auth/Signing.antt =====
-- `Signer` of backend/app/auth/signing.py. Bytes and strings are texts; the HMAC in base64 is a
-- parameter, and `hmac.compare_digest` is equality of texts of ASCII, the HMAC's being one; it raises a
-- TypeError for another.
pub mod RoundTrip
use compliance_pulse.Prelude.{
  ℕ, Text, Bool, true, false, Option, none, some, List, [], ◌∷◌, ◌++◌, codes, text_eq, ◌==◌, all,
  not, ltb, if◌then◌else◌,
}

pub record Signer : Type 0 where
  pub secret_key : Text
  pub sep : ℕ
  -- `hmac.new(key, value)` with SHA-256 in URL-safe base64 without its padding
  pub digest : Text → Text → Text

-- The value, `BadSignature`, or a `TypeError`
pub data Unsigned : Type 0 where
  type_error : Unsigned
  bad_signature : Text → Unsigned
  signed_value : Text → Unsigned

unfoldable pub get_signature : Signer → Text → Text
get_signature s value = s.digest s.secret_key value

unfoldable pub sign : Signer → Text → Text
unfolding get_signature
sign s value = value ++ s.sep ∷ get_signature s value

abbrev pub split_later : ℕ → ℕ → Text → Option (Text × Text) → Option (Text × Text)
split_later sep c cs none = if c == sep then some ([], cs) else none
split_later sep c cs (some (before, after)) = some (c ∷ before, after)

-- `rsplit(sep, 1)` into two parts, if the separator stands in the text
unfoldable pub rsplit_once : ℕ → Text → Option (Text × Text)
rsplit_once sep [] = none
rsplit_once sep (c ∷ cs) = split_later sep c cs (rsplit_once sep cs)

abbrev pub check_parts : Signer → Option (Text × Text) → Unsigned
check_parts s none = bad_signature (codes "Malformed signed value")
check_parts s (some (value, signature)) =
    if not (all (λ c. ltb c 128) signature)
    then type_error
    else if text_eq signature (get_signature s value)
    then signed_value value
    else bad_signature (codes "Invalid signature")

unfoldable pub unsign : Signer → Text → Unsigned
unfolding rsplit_once
unsign s signed = check_parts s (rsplit_once s.sep signed)
