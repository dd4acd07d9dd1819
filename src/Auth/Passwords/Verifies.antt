-- ===== src/Auth/Passwords/Verifies.antt =====
-- A password opens the hash that was made of it (backend/app/auth/password_hasher.py).
use compliance_pulse.Prelude.{
  ℕ, zero, suc, ◌+◌, ◌-◌, ◌%◌, ◌^◌, max, at_least, ◌<◌, ◌≡◌, refl, sym, ap, ◌∙◌, subst, arith, pos,
  int_eq, Text, false, Option, none, some, List, [], ◌∷◌, ◌++◌, codes, decimal, decimal-digits,
  parse_int-decimal, is_digit, is_space, split_on, split_on-append, split_on-absent, starts_with,
  strip, strip-clean, lstrip, text_eq, text_eq_refl, length, replicate, reverse, All, All-map,
  All-append, All-reverse, ◌==◌,
}
use mathlib.Core.List.{reverse-append, reverse-reverse, reverse-cons}
use compliance_pulse.Session.Monad.{ok, ok-injective}
use compliance_pulse.Auth.Passwords.{
  n_power, blocks, Library, PasswordHasher, drop_padding, encode, decode, Params, no_params,
  or_cost, derive_key, params_text, hash_text, hashed, hash, split, partition, set_chunk,
  read_params, parse_params, verified, verify_parts, verify,
}

-- What base64 and scrypt are relied on for: a digest has the length that was asked for; base64 writes
-- whole groups of four characters, of which at most the last three are padding, has neither `$` nor
-- spaces, and reads back what it wrote.
pub record IsLibrary (l : Library) : Type 0 where
  pub digest_length :
      (password salt : Text) (n r p dklen : ℕ) → length (l.scrypt password salt n r p dklen) ≡ dklen
  pub body : Text → Text
  pub padding : Text → ℕ
  pub written : (v : Text) → l.b64encode v ≡ body v ++ replicate (padding v) b'='
  pub unpadded : (v : Text) → All (λ (c : ℕ). (c == b'=') ≡ false) (body v)
  pub no_dollar : (v : Text) → All (λ (c : ℕ). (c == b'$') ≡ false) (body v)
  pub no_space : (v : Text) → All (λ (c : ℕ). is_space c ≡ false) (body v)
  pub short : (v : Text) → padding v < 4
  pub grouped : (v : Text) → (length (body v) + padding v) % 4 ≡ 0
  pub read_back : (v : Text) → l.b64decode (l.b64encode v) ≡ some v

drop_padding-replicate : (k : ℕ) (s : Text) → drop_padding (replicate k b'=' ++ s) ≡ drop_padding s
drop_padding-replicate zero s = refl
drop_padding-replicate (suc k) s = drop_padding-replicate k s

drop_padding-clean : (s : Text) → All (λ (c : ℕ). (c == b'=') ≡ false) s → drop_padding s ≡ s
drop_padding-clean [] h = refl
drop_padding-clean (c ∷ s) h = rw h.0 refl

replicate-append : (k : ℕ) (c : ℕ) → replicate k c ++ c ∷ [] ≡ c ∷ replicate k c
replicate-append zero c = refl
replicate-append (suc k) c = ap (λ s. c ∷ s) (replicate-append k c)

reverse-replicate : (k : ℕ) (c : ℕ) → reverse (replicate k c) ≡ replicate k c
reverse-replicate zero c = refl
reverse-replicate (suc k) c =
    reverse-cons c (replicate k c)
    ∙ ap (λ s. s ++ c ∷ []) (reverse-replicate k c)
    ∙ replicate-append k c

module _ (l : Library) (laws : IsLibrary l) where
  encode-body : (v : Text) → encode l v ≡ laws.body v
  unfolding encode
  encode-body v =
      ap (λ s. reverse (drop_padding (reverse s))) (laws.written v)
      ∙ ap (λ s. reverse (drop_padding s))
          (reverse-append (laws.body v) (replicate (laws.padding v) b'='))
      ∙ ap (λ s. reverse (drop_padding (s ++ reverse (laws.body v))))
          (reverse-replicate (laws.padding v) b'=')
      ∙ ap reverse (drop_padding-replicate (laws.padding v) (reverse (laws.body v)))
      ∙ ap reverse (
          drop_padding-clean (reverse (laws.body v))
            (All-reverse (λ c. (c == b'=') ≡ false) (laws.body v) (laws.unpadded v)))
      ∙ reverse-reverse (laws.body v)

  decode-encode : (v : Text) → decode l (encode l v) ≡ some v
  unfolding decode
  decode-encode v =
      let short : (4 - length (laws.body v) % 4) % 4 ≡ laws.padding v =
        omega (arith, laws.short v, laws.grouped v) in
      ap (decode l) (encode-body v)
      ∙ ap (λ k. l.b64decode (laws.body v ++ replicate k b'=')) short
      ∙ ap l.b64decode (sym (laws.written v))
      ∙ laws.read_back v

abbrev NoDollar : Text → Type 0
NoDollar s = All (λ (c : ℕ). (c == b'$') ≡ false) s

abbrev NoComma : Text → Type 0
NoComma s = All (λ (c : ℕ). (c == b',') ≡ false) s

digits-NoDollar : (n : ℕ) → NoDollar (decimal n)
unfolding is_digit
digits-NoDollar n = All-map (λ c h. ground (arith, h)) (decimal n) (decimal-digits n)

digits-NoComma : (n : ℕ) → NoComma (decimal n)
unfolding is_digit
digits-NoComma n = All-map (λ c h. ground (arith, h)) (decimal n) (decimal-digits n)

abbrev IsNoDollar : ℕ → Type 0
IsNoDollar c = (c == b'$') ≡ false

params_text-NoDollar : (x : PasswordHasher) → NoDollar (params_text x)
params_text-NoDollar x = (
  refl,
  (
    refl,
    All-append IsNoDollar (decimal x.memory_cost) _ (digits-NoDollar x.memory_cost) (
      refl,
      (
        refl,
        (
          refl,
          All-append IsNoDollar (decimal x.time_cost) _ (digits-NoDollar x.time_cost)
              (refl, (refl, (refl, digits-NoDollar x.parallelism))),
        ),
      ),
    ),
  ),
)

-- The costs that a hash of the hasher names
abbrev costs : PasswordHasher → Params
costs x = record {
  time_cost = some (pos x.time_cost);
  memory_cost = some (pos x.memory_cost);
  parallelism = some (pos x.parallelism);
}

set_memory :
    (n : ℕ) (params : Params)
    → set_chunk (codes "m=" ++ decimal n) params
      ≡ some (record params { memory_cost = some (pos n) })
unfolding partition text_eq
set_memory n params = rw (parse_int-decimal n) refl

set_time :
    (n : ℕ) (params : Params)
    → set_chunk (codes "t=" ++ decimal n) params ≡ some (record params { time_cost = some (pos n) })
unfolding partition text_eq
set_time n params = rw (parse_int-decimal n) refl

set_parallelism :
    (n : ℕ) (params : Params)
    → set_chunk (codes "p=" ++ decimal n) params
      ≡ some (record params { parallelism = some (pos n) })
unfolding partition text_eq
set_parallelism n params = rw (parse_int-decimal n) refl

read_next :
    (chunk : Text) (chunks : List Text) (params : Params) {params' : Params}
    → set_chunk chunk params ≡ some params'
    → read_params (chunk ∷ chunks) params ≡ read_params chunks params'
unfolding read_params
read_next chunk chunks params e =
    ap (λ (o : Option Params). elim o [ none ↦ none | some p ↦ read_params chunks p ]) e

parse_params-params_text : (x : PasswordHasher) → parse_params (params_text x) ≡ some (costs x)
unfolding parse_params starts_with read_params
parse_params-params_text x =
    rw
      (split_on-append b',' (codes "m=" ++ decimal x.memory_cost)
        (codes "t=" ++ (decimal x.time_cost ++ (codes ",p=" ++ decimal x.parallelism)))
        (refl, (refl, digits-NoComma x.memory_cost)))
      (rw
        (split_on-append b',' (codes "t=" ++ decimal x.time_cost)
          (codes "p=" ++ decimal x.parallelism) (refl, (refl, digits-NoComma x.time_cost)))
        (rw
          (split_on-absent b',' (codes "p=" ++ decimal x.parallelism)
            (refl, (refl, digits-NoComma x.parallelism)))
          (read_next _
              ((codes "t=" ++ decimal x.time_cost) ∷ (codes "p=" ++ decimal x.parallelism) ∷ [])
              no_params (set_memory x.memory_cost no_params)
            ∙ read_next _ ((codes "p=" ++ decimal x.parallelism) ∷ []) _
                (set_time x.time_cost (record no_params { memory_cost = some (pos x.memory_cost) }))
            ∙ read_next _ [] _ (
                set_parallelism x.parallelism (record no_params {
                  memory_cost = some (pos x.memory_cost);
                  time_cost = some (pos x.time_cost);
                }))
            ∙ refl)))

module _ (l : Library) (laws : IsLibrary l) where
  encode-NoDollar : (v : Text) → NoDollar (encode l v)
  encode-NoDollar v = subst NoDollar (sym (encode-body l laws v)) (laws.no_dollar v)

  encode-no_space : (v : Text) → All (λ (c : ℕ). is_space c ≡ false) (encode l v)
  encode-no_space v =
      subst (All (λ (c : ℕ). is_space c ≡ false)) (sym (encode-body l laws v)) (laws.no_space v)

  strip-digest : (v : Text) → strip (b' ' ∷ encode l v) ≡ encode l v
  unfolding strip lstrip is_space
  strip-digest v = strip-clean (encode l v) (encode-no_space v)

  split-hash_text :
      (x : PasswordHasher) (salt digest : Text)
      → split (hash_text l x salt digest) ≡ some (params_text x, encode l salt, encode l digest)
  unfolding split split_on
  split-hash_text x salt digest =
      rw
        (split_on-append b'$' (params_text x) (encode l salt ++ (codes "$ " ++ encode l digest))
          (params_text-NoDollar x))
        (rw (split_on-append b'$' (encode l salt) (b' ' ∷ encode l digest) (encode-NoDollar salt)) (
          rw (split_on-absent b'$' (b' ' ∷ encode l digest) (refl, encode-NoDollar digest))
            (ap (λ d. some (params_text x, encode l salt, d)) (strip-digest digest))))

-- The digest for costs that are not 0
abbrev digest_of : Library → Text → Text → ℕ → ℕ → ℕ → ℕ → Text
digest_of l password salt t m p n =
    l.scrypt password salt (2 ^ n_power (pos t)) (max 8 (blocks (pos m) (pos p)))
      (at_least 1 (pos p)) n

or_cost-set : (n default : ℕ) → 0 < n → or_cost (pos n) default ≡ pos n
unfolding int_eq
or_cost-set n default h = ground arith

derive_key-digest :
    (l : Library) (y : PasswordHasher) (password salt : Text) (t m p n : ℕ)
    → 0 < t
    → 0 < m
    → 0 < p
    → 0 < n
    → derive_key l y password salt (pos t) (pos m) (pos p) n
      ≡ ok (digest_of l password salt t m p n)
unfolding derive_key int_eq
derive_key-digest l y password salt t m p n ht hm hp hn =
    let nonzero : (p == 0) ≡ false = ground arith in
    let long : (n == 0) ≡ false = ground arith in
    rw (or_cost-set t y.time_cost ht) (
      rw (or_cost-set m y.memory_cost hm)
        (rw (or_cost-set p y.parallelism hp) (rw nonzero (rw long refl))))

-- A password that was hashed is verified against the hash, by the hasher that made it and by one with
-- any other costs, as long as the first hasher's costs and its digest's length are not 0.
pub hash-verify :
    (l : Library) (x y : PasswordHasher) (salt password h : Text)
    → IsLibrary l
    → 0 < x.time_cost
    → 0 < x.memory_cost
    → 0 < x.parallelism
    → 0 < x.hash_len
    → hash l x salt password ≡ ok h
    → verify l y h password ≡ verified
unfolding hash verify
hash-verify l x y salt password h laws ht hm hp hn made =
    let digest = digest_of l password salt x.time_cost x.memory_cost x.parallelism x.hash_len in
    let derived =
      derive_key-digest l x password salt x.time_cost x.memory_cost x.parallelism x.hash_len ht hm
        hp hn in
    let same : hash_text l x salt digest ≡ h =
      ok-injective (sym (ap (hashed l x salt) derived) ∙ made) in
    let again =
      derive_key-digest l y password salt x.time_cost x.memory_cost x.parallelism x.hash_len ht hm
        hp hn in
    let asked : length digest ≡ x.hash_len = laws.digest_length password salt _ _ _ x.hash_len in
    subst (λ t. verify_parts l y password (split t) ≡ verified) same
      (rw (split-hash_text l laws x salt digest) (
        rw (parse_params-params_text x) (
          rw (decode-encode l laws salt) (
            rw (decode-encode l laws digest)
              (rw asked (rw again (rw (text_eq_refl digest) refl)))))))
