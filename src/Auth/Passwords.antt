-- ===== src/Auth/Passwords.antt =====
-- `PasswordHasher` of backend/app/auth/password_hasher.py and `verify_password` of
-- backend/app/auth/utils.py. Passwords, salts and digests are bytes.
pub mod Verifies
use compliance_pulse.Prelude.{
  ℕ, zero, suc, ◌+◌, ◌-◌, ◌*◌, ◌/◌, ◌%◌, ◌^◌, max, min, ℤ, pos, negsuc, at_least, int_eq, Text,
  Bool, true, false, Option, none, some, List, [], ◌∷◌, ◌++◌, codes, decimal, parse_int, split_on,
  starts_with, strip, text_eq, length, replicate, reverse, not, ◌||◌, ◌==◌, if◌then◌else◌,
}
use compliance_pulse.Session.Monad.{Result, ok, err, Error, value_error, other_error}

-- The library: `scrypt password salt n r p dklen` within its memory limit, and base64, where `none` is
-- a `binascii.Error`.
pub record Library : Type 0 where
  pub scrypt : Text → Text → ℕ → ℕ → ℕ → ℕ → Text
  pub b64encode : Text → Text
  pub b64decode : Text → Option Text

pub record PasswordHasher : Type 0 where
  pub time_cost : ℕ
  pub memory_cost : ℕ
  pub parallelism : ℕ
  pub hash_len : ℕ

abbrev pub drop_padding : Text → Text
drop_padding [] = []
drop_padding (c ∷ s) = let rest = drop_padding s in if c == b'=' then rest else c ∷ s

-- `_b64encode`, which takes the padding off
unfoldable pub encode : Library → Text → Text
encode l value = reverse (drop_padding (reverse (l.b64encode value)))

-- `_b64decode`, which puts it on again
unfoldable pub decode : Library → Text → Option Text
decode l value = l.b64decode (value ++ replicate ((4 - length value % 4) % 4) b'=')

-- The costs that a hash names
pub record Params : Type 0 where
  pub time_cost : Option ℤ
  pub memory_cost : Option ℤ
  pub parallelism : Option ℤ

abbrev pub no_params : Params
no_params = record { time_cost = none; memory_cost = none; parallelism = none }

-- `value or default`
abbrev pub or_cost : ℤ → ℕ → ℤ
or_cost value default = if int_eq value (pos 0) then pos default else value

-- `max(14, min(20, time_cost + 10))`
abbrev pub n_power : ℤ → ℕ
n_power (pos t) = max 14 (min 20 (t + 10))
n_power (negsuc t) = 14

-- `memory_cost // (1024 * parallelism)` where it is positive, and 0 where it is not
abbrev pub blocks : ℤ → ℤ → ℕ
blocks (pos m) (pos p) = m / (1024 * p)
blocks (negsuc m) (negsuc p) = suc m / (1024 * suc p)
blocks (pos m) (negsuc p) = 0
blocks (negsuc m) (pos p) = 0

abbrev pub scrypt_with : Library → Text → Text → ℤ → ℤ → ℤ → ℕ → Result Text
scrypt_with l password salt t m p dklen =
    if int_eq p (pos 0)
    then err (other_error (codes "ZeroDivisionError"))
    else ok (l.scrypt password salt (2 ^ n_power t) (max 8 (blocks m p)) (at_least 1 p) dklen)

-- `_derive_key`
unfoldable pub derive_key : Library → PasswordHasher → Text → Text → ℤ → ℤ → ℤ → ℕ → Result Text
derive_key l x password salt time_cost memory_cost parallelism hash_len =
    scrypt_with l password salt (or_cost time_cost x.time_cost) (or_cost memory_cost x.memory_cost)
      (or_cost parallelism x.parallelism) (if hash_len == 0 then x.hash_len else hash_len)

abbrev pub params_text : PasswordHasher → Text
params_text x =
    codes "m="
    ++ (decimal x.memory_cost
        ++ (codes ",t=" ++ (decimal x.time_cost ++ (codes ",p=" ++ decimal x.parallelism))))

abbrev pub hash_text : Library → PasswordHasher → Text → Text → Text
hash_text l x salt digest =
    codes "$argon2id$v=19$"
    ++ (params_text x ++ (b'$' ∷ (encode l salt ++ (codes "$ " ++ encode l digest))))

abbrev pub hashed : Library → PasswordHasher → Text → Result Text → Result Text
hashed l x salt (ok digest) = ok (hash_text l x salt digest)
hashed l x salt (err e) = err e

-- `hash`, with the salt that was drawn
unfoldable pub hash : Library → PasswordHasher → Text → Text → Result Text
hash l x salt password = hashed l x salt (
    derive_key l x password salt (pos x.time_cost) (pos x.memory_cost) (pos x.parallelism)
      x.hash_len)

-- `_split`
abbrev pub three_parts : List Text → Option (Text × Text × Text)
three_parts (_ ∷ _ ∷ _ ∷ meta ∷ salt ∷ digest ∷ _) = some (meta, salt, strip digest)
three_parts _ = none

unfoldable pub split : Text → Option (Text × Text × Text)
split hash_value = three_parts (split_on b'$' hash_value)

-- `chunk.partition("=")`, of which the middle is left out
abbrev pub keep_before : ℕ → Text × Text → Text × Text
keep_before c (before, after) = (c ∷ before, after)

unfoldable pub partition : Text → Text × Text
partition [] = ([], [])
partition (c ∷ s) = let rest = partition s in if c == b'=' then ([], s) else keep_before c rest

abbrev pub set_param : Text → Text → Params → Option Params
set_param key value params =
    let number = parse_int value in
    if text_eq key (codes "m")
    then elim number [ none ↦ none | some n ↦ some (record params { memory_cost = some n }) ]
    else if text_eq key (codes "t")
    then elim number [ none ↦ none | some n ↦ some (record params { time_cost = some n }) ]
    else if text_eq key (codes "p")
    then elim number [ none ↦ none | some n ↦ some (record params { parallelism = some n }) ]
    else some params

abbrev pub set_chunk : Text → Params → Option Params
set_chunk chunk params = let (key, value) = partition chunk in set_param key value params

unfoldable pub read_params : List Text → Params → Option Params
read_params [] params = some params
read_params (chunk ∷ chunks) params = elim (set_chunk chunk params) [
  | none ↦ none
  | some params' ↦ read_params chunks params'
]

-- `_parse_params`; `hash_len` is always the hasher's own.
unfoldable pub parse_params : Text → Option Params
parse_params component =
    if starts_with (codes "m=") component
    then read_params (split_on b',' component) no_params
    else none

-- `verify` returns, raises `VerifyMismatchError` or `VerificationError`, or another error.
pub data Verification : Type 0 where
  verified mismatch malformed : Verification
  failed : Error → Verification

abbrev pub compared : Text → Result Text → Verification
compared expected (ok derived) = if text_eq expected derived then verified else mismatch
compared expected (err e) = failed e

-- `params.get(key, default)`
abbrev pub cost_or : Option ℤ → ℕ → ℤ
cost_or none default = pos default
cost_or (some n) default = n

abbrev pub verify_decoded :
    Library → PasswordHasher → Text → Params → Option Text → Option Text → Verification
verify_decoded l x password params none expected = malformed
verify_decoded l x password params (some salt) none = malformed
verify_decoded l x password params (some salt) (some expected) = compared expected (
    derive_key l x password salt (cost_or params.time_cost x.time_cost)
      (cost_or params.memory_cost x.memory_cost) (cost_or params.parallelism x.parallelism)
      (length expected))

abbrev pub verify_params :
    Library → PasswordHasher → Text → Text → Text → Option Params → Verification
verify_params l x password salt digest none = malformed
verify_params l x password salt digest (some params) =
    verify_decoded l x password params (decode l salt) (decode l digest)

abbrev pub verify_parts :
    Library → PasswordHasher → Text → Option (Text × Text × Text) → Verification
verify_parts l x password none = malformed
verify_parts l x password (some (meta, salt, digest)) =
    verify_params l x password salt digest (parse_params meta)

unfoldable pub verify : Library → PasswordHasher → Text → Text → Verification
verify l x hash_value password = verify_parts l x password (split hash_value)

abbrev answer : Verification → Result Bool
answer verified = ok true
answer mismatch = ok false
answer malformed = err (other_error (codes "VerificationError"))
answer (failed e) = err e

-- `verify_password`
unfoldable pub verify_password : Library → PasswordHasher → Text → Text → Result Bool
verify_password l x password hashed_password = answer (verify l x hashed_password password)

abbrev differs : Option ℤ → ℕ → Bool
differs none own = true
differs (some n) own = not (int_eq n (pos own))

abbrev outdated : PasswordHasher → Option Params → Bool
outdated x none = true
outdated x (some params) =
    differs params.time_cost x.time_cost
    || differs params.memory_cost x.memory_cost
    || differs params.parallelism x.parallelism

abbrev outdated_parts : PasswordHasher → Option (Text × Text × Text) → Bool
outdated_parts x none = true
outdated_parts x (some (meta, salt, digest)) = outdated x (parse_params meta)

unfoldable pub check_needs_rehash : PasswordHasher → Text → Bool
check_needs_rehash x hash_value = outdated_parts x (split hash_value)
