-- ===== src/Security/Sandbox/Policy.antt =====
-- The sandbox policy of backend/app/security/utils.py as a statement about commands.
use compliance_pulse.Prelude.{
  Text, ◌≡◌, refl, ◌≢◌, ◌↔◌, ◌⊎◌, inl, inr, true, false, List, [], ◌∷◌, ◌++◌, text_mem, contains,
  absent_of_contains, contains_of_absent, any-eq-false, any-of_All-false, All, All-map, ap, arith,
  Option,
}
use compliance_pulse.Session.Monad.{Result, ok, err, Error, Result-cases}
use compliance_pulse.Security.Settings.{SecuritySettings, load_allowed_commands}
use compliance_pulse.Security.Sandbox.{
  shlex_split, path_name, forbidden_tokens, is_chained, check_tokens, bind_tokens,
  ensure_command_allowed,
}

-- The command's first word, or the name of the file that it points to, is on the list, and the
-- command holds no chaining token at any place.
pub record IsPermitted (s : SecuritySettings) (command : Text) : Type 0 where
  pub binary : Text
  pub arguments : List Text
  pub words : shlex_split command ≡ ok (binary ∷ arguments)
  pub listed :
      (text_mem (path_name binary) s.allowed_commands ≡ true)
      ⊎ (text_mem binary s.allowed_commands ≡ true)
  pub unchained :
      All (λ token. (pre post : Text) → command ≢ pre ++ (token ++ post)) forbidden_tokens

check_tokens-IsPermitted :
    (s : SecuritySettings) (command : Text) (tokens : List Text)
    → shlex_split command ≡ ok tokens
    → check_tokens s command tokens ≡ ok tt
    → IsPermitted s command
unfolding check_tokens is_chained
check_tokens-IsPermitted s command [] split h = absurd (cc)
check_tokens-IsPermitted s command (binary ∷ rest) split h = record {
  binary = binary;
  arguments = rest;
  words = split;
  listed = ground arith;
  unchained =
      All-map (λ token. absent_of_contains token command) forbidden_tokens
        (any-eq-false (λ token. contains token command) forbidden_tokens (ground arith));
}

bind_tokens-IsPermitted :
    (s : SecuritySettings) (command : Text) (split : Result (List Text))
    → shlex_split command ≡ split
    → bind_tokens s command split ≡ ok tt
    → IsPermitted s command
bind_tokens-IsPermitted s command (ok tokens) e h = check_tokens-IsPermitted s command tokens e h
bind_tokens-IsPermitted s command (err _) e h = absurd (cc)

check_tokens-of_IsPermitted :
    (s : SecuritySettings) (command : Text) (p : IsPermitted s command)
    → check_tokens s command (p.binary ∷ p.arguments) ≡ ok tt
unfolding check_tokens is_chained
check_tokens-of_IsPermitted s command p =
    let free =
      any-of_All-false (λ token. contains token command) forbidden_tokens
        (All-map (λ token. contains_of_absent token command) forbidden_tokens p.unchained) in
    elim p.listed [ inl named ↦ rw (named, free) | inr given ↦ ground (arith, given, free) ]

-- Outside test mode a command is let through exactly when it is permitted: its first word is on
-- the list, by itself or by its file name, and no chaining token stands in it at any place.
pub ensure_command_allowed_iff :
    (s : SecuritySettings) (command : Text)
    → s.security_test_mode ≡ false
    → (ensure_command_allowed s command ≡ ok tt) ↔ IsPermitted s command
unfolding ensure_command_allowed
ensure_command_allowed_iff s command live = (
  λ h. bind_tokens-IsPermitted s command (shlex_split command) refl (ground (arith, h)),
  λ p. ground (arith, live, p.words, check_tokens-of_IsPermitted s command p),
)

nothing_listed :
    (s : SecuritySettings) (command : Text) → s.allowed_commands ≡ [] → IsPermitted s command → ⊥
unfolding text_mem
nothing_listed s command e p = elim p.listed [
  | inl named ↦ ground (arith, ap (text_mem (path_name p.binary)) e)
  | inr given ↦ ground (arith, ap (text_mem p.binary) e)
]

-- Settings whose allow-list is loaded as the module loads it, whatever `ALLOWED_COMMANDS` holds,
-- refuse every command outside test mode.
pub load_allowed_commands-refuse :
    (s : SecuritySettings) (env_value : Option Text) (command : Text)
    → s.security_test_mode ≡ false
    → s.allowed_commands ≡ load_allowed_commands env_value
    → (e : Error) × (ensure_command_allowed s command ≡ err e)
unfolding load_allowed_commands
load_allowed_commands-refuse s env_value command live loaded =
    elim (Result-cases (ensure_command_allowed s command)) [
      | inl allowed ↦
          absurd (
            nothing_listed s command loaded ((ensure_command_allowed_iff s command live).0 allowed))
      | inr refused ↦ refused
    ]
