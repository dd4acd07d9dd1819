-- ===== src/Tests/Passwords.antt =====
-- The theorem on password hashes, at a small hasher with another one's costs.
use compliance_pulse.Prelude.{
  ℕ, ◌+◌, ◌-◌, ◌%◌, ◌<◌, ◌≡◌, refl, sym, ap, arith, Text, false, some, [], ◌∷◌, codes, append-nil,
  is_space, length, length-replicate, replicate, All, ◌==◌, int_eq,
}
use compliance_pulse.Auth.Passwords.{
  Library, PasswordHasher, hash_text, hash, verify, verified, derive_key,
}
use compliance_pulse.Auth.Passwords.Verifies.{IsLibrary, hash-verify}

-- Four letters for each byte, in place of base64
abbrev letters : Text → Text
letters [] = []
letters (c ∷ v) = let d = c + 20000 in d ∷ d ∷ d ∷ d ∷ letters v

abbrev bytes : Text → Text
bytes (a ∷ b ∷ c ∷ d ∷ s) = (a - 20000) ∷ bytes s
bytes _ = []

abbrev pub library : Library
library = record {
  scrypt = λ password salt n r p dklen. replicate dklen 65;
  b64encode = λ v. letters v;
  b64decode = λ s. some (bytes s);
}

bytes-letters : (v : Text) → bytes (letters v) ≡ v
bytes-letters [] = refl
bytes-letters (c ∷ v) = cc (bytes-letters v, same c)
  where
    same : (c : ℕ) → (c + 20000) - 20000 ≡ c
    same c = omega arith

length-letters : (v : Text) → length (letters v) % 4 ≡ 0
length-letters [] = refl
length-letters (c ∷ v) = omega (arith, length-letters v)

letters-not : (k : ℕ) → k < 20000 → (v : Text) → All (λ (c : ℕ). (c == k) ≡ false) (letters v)
letters-not k h [] = tt
letters-not k h (c ∷ v) =
    let other : ((c + 20000) == k) ≡ false = ground arith in
    (other, (other, (other, (other, letters-not k h v))))

not_space : (c : ℕ) → is_space (c + 20000) ≡ false
unfolding is_space
not_space c = ground arith

letters-no_space : (v : Text) → All (λ (c : ℕ). is_space c ≡ false) (letters v)
letters-no_space [] = tt
letters-no_space (c ∷ v) =
    let other = not_space c in (other, (other, (other, (other, letters-no_space v))))

pub library-IsLibrary : IsLibrary library
library-IsLibrary = record {
  digest_length = λ password salt n r p dklen. length-replicate dklen 65;
  body = λ v. letters v;
  padding = λ v. 0;
  written = λ v. sym (append-nil (letters v));
  unpadded = λ v. letters-not b'=' (omega arith) v;
  no_dollar = λ v. letters-not b'$' (omega arith) v;
  no_space = λ v. letters-no_space v;
  short = λ v. omega arith;
  grouped = λ v. omega (arith, length-letters v);
  read_back = λ v. ap some (bytes-letters v);
}

abbrev pub hasher : PasswordHasher
hasher = record { time_cost = 3; memory_cost = 65536; parallelism = 2; hash_len = 3 }

abbrev cheaper : PasswordHasher
cheaper = record { time_cost = 1; memory_cost = 1024; parallelism = 1; hash_len = 8 }

hash-verify_example :
    verify library cheaper (hash_text library hasher (codes "s") (codes "AAA")) (codes "secret")
    ≡ verified
unfolding hash derive_key int_eq
hash-verify_example =
    hash-verify library hasher cheaper (codes "s") (codes "secret")
      (hash_text library hasher (codes "s") (codes "AAA")) library-IsLibrary (omega arith)
      (omega arith) (omega arith) (omega arith) refl
