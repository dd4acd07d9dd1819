-- ===== src/Security/Masking.antt =====
-- `mask_secret`, `sanitize_metadata` and `get_client_context` of backend/app/security/utils.py.
pub mod Hiding
use compliance_pulse.Prelude.{
  ℕ, ◌-◌, Text, Bool, true, false, Option, none, some, List, [], ◌∷◌, ◌++◌, codes, length, drop,
  replicate, leb, ◌==◌, lower, text_mem, split_on, strip, int_text, is_empty, if◌then◌else◌,
}
use compliance_pulse.Models.Scanning.{Value, Metadata, null, text, number, flag, other}

abbrev pub sensitive_keys : List Text
sensitive_keys =
    codes "password"
    ∷ codes "secret"
    ∷ codes "token"
    ∷ codes "api_key"
    ∷ codes "session"
    ∷ codes "stripe"
    ∷ []

abbrev pub star : ℕ
star = b'*'

-- `text[-visible:]`, which for `visible` 0 is the whole text
unfoldable pub last_characters : ℕ → Text → Text
last_characters visible value = if visible == 0 then value else drop (length value - visible) value

-- `mask_secret`: all but the last `visible` characters are replaced by stars.
unfoldable pub mask_secret : Text → ℕ → Text
unfolding last_characters
mask_secret value visible =
    if leb (length value) visible
    then replicate (length value) star
    else replicate (length value - visible) star ++ last_characters visible value

-- `str(value)`
unfoldable pub value_text : Value → Text
value_text null = codes "None"
value_text (text t) = t
value_text (number n) = int_text n
value_text (flag b) = if b then codes "True" else codes "False"
value_text (other t) = t

unfoldable pub sanitize_value : Text → Value → Value
sanitize_value key null = null
sanitize_value key value =
    if text_mem (lower key) sensitive_keys then text (mask_secret (value_text value) 4) else value

-- The loop of `sanitize_metadata` over a dictionary's items.
unfoldable pub sanitize_items : Metadata → Metadata
sanitize_items [] = []
sanitize_items ((key, value) ∷ rest) = (key, sanitize_value key value) ∷ sanitize_items rest

unfoldable pub sanitize_metadata : Option (Metadata) → Metadata
sanitize_metadata none = []
sanitize_metadata (some metadata) = sanitize_items metadata

-- What the program reads of an HTTP request's origin: two headers and the peer's address.
pub record Request : Type 0 where
  pub forwarded_for : Option Text
  pub client_host : Option Text
  pub user_agent : Option Text

abbrev first_piece : List Text → Text
first_piece [] = []
first_piece (piece ∷ _) = piece

client_ip : Option Text → Option Text → Option Text
client_ip none host = host
client_ip (some []) none = some []
client_ip (some []) (some host) = some host
client_ip (some (c ∷ forwarded)) host = some (strip (first_piece (split_on b',' (c ∷ forwarded))))

-- `get_client_context`: the address and the user agent
unfoldable pub get_client_context : Option Request → Option Text × Option Text
unfolding client_ip
get_client_context none = (none, none)
get_client_context (some request) =
    (client_ip request.forwarded_for request.client_host, request.user_agent)
