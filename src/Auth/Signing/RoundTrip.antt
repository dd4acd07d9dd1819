-- ===== src/Auth/Signing/RoundTrip.antt =====
-- How `sign` and `unsign` of backend/app/auth/signing.py fit together.
use compliance_pulse.Prelude.{
  ℕ, ◌≡◌, refl, ap, ◌∙◌, ◌↔◌, arith, inl, inr, Text, true, false, Option, none, some, [], ◌∷◌, ◌++◌,
  All, text_eq, text_eq_sound, text_eq_refl, ◌==◌, ◌<◌, all, ltb, All-map, Bool-cases,
}
use compliance_pulse.Auth.Signing.{
  Signer, signed_value, get_signature, sign, split_later, rsplit_once, check_parts, unsign,
}

rsplit_once-absent :
    (sep : ℕ) (t : Text) → All (λ (c : ℕ). (c == sep) ≡ false) t → rsplit_once sep t ≡ none
unfolding rsplit_once
rsplit_once-absent sep [] h = refl
rsplit_once-absent sep (c ∷ t) h = ground (arith, h.0, rsplit_once-absent sep t h.1)

rsplit_once-append :
    (sep : ℕ) (before after : Text)
    → All (λ (c : ℕ). (c == sep) ≡ false) after
    → rsplit_once sep (before ++ sep ∷ after) ≡ some (before, after)
unfolding rsplit_once
rsplit_once-append sep [] after h = ground (arith, rsplit_once-absent sep after h)
rsplit_once-append sep (c ∷ before) after h =
    ap (split_later sep c (before ++ sep ∷ after)) (rsplit_once-append sep before after h)

same_code : (c sep : ℕ) → (c == sep) ≡ true → c ≡ sep
same_code c sep e = ground arith

split_here :
    (sep c : ℕ) (cs : Text) {before after : Text}
    → (c == sep) ≡ true
    → ◌≡◌ {A = Option (Text × Text)} (some ([], cs)) (some (before, after))
    → c ∷ cs ≡ before ++ sep ∷ after
split_here sep c cs e h = let same = same_code c sep e in cc (same, h)

split_later_sound :
    (sep c : ℕ) (cs : Text) (o : Option (Text × Text)) {before after : Text}
    → ((b a : Text) → o ≡ some (b, a) → cs ≡ b ++ sep ∷ a)
    → split_later sep c cs o ≡ some (before, after)
    → c ∷ cs ≡ before ++ sep ∷ after
split_later_sound sep c cs none ih h = elim (Bool-cases (c == sep)) [
  | inl e ↦ split_here sep c cs e (rw e at h)
  | inr e ↦ absurd (ground (arith, e, h))
]
split_later_sound sep c cs (some (b, a)) ih h = let whole = ih b a refl in cc (whole, h)

rsplit_once_sound :
    (sep : ℕ) (t : Text) {before after : Text}
    → rsplit_once sep t ≡ some (before, after)
    → t ≡ before ++ sep ∷ after
unfolding rsplit_once
rsplit_once_sound sep [] h = absurd (cc)
rsplit_once_sound sep (c ∷ cs) h =
    split_later_sound sep c cs (rsplit_once sep cs) (λ b a e. rsplit_once_sound sep cs e) h

-- Signatures are of ASCII, and do not hold the separator.
abbrev pub IsClean : Signer → Type 0
IsClean s = (v : Text) → All (λ (c : ℕ). ((c == s.sep) ≡ false) × (c < 128)) (get_signature s v)

check_parts_sound :
    (s : Signer) (o : Option (Text × Text)) {value : Text}
    → check_parts s o ≡ signed_value value
    → o ≡ some (value, get_signature s value)
check_parts_sound s none h = absurd (cc)
check_parts_sound s (some (v, signature)) {value} h =
    elim (Bool-cases (all (λ (c : ℕ). ltb c 128) signature)) [
      | inr foreign ↦ absurd (cc (rw foreign at h))
      | inl ascii ↦ elim (Bool-cases (text_eq signature (get_signature s v))) [
        | inl e ↦
            let same = text_eq_sound signature (get_signature s v) e in
            cc (same, rw (ascii, e) at h)
        | inr e ↦ absurd (cc (rw (ascii, e) at h))
      ]
    ]

all-ascii : (t : Text) → All (λ (c : ℕ). c < 128) t → all (λ (c : ℕ). ltb c 128) t ≡ true
unfolding all
all-ascii [] h = refl
all-ascii (c ∷ t) h = ground (arith, h.0, all-ascii t h.1)

-- Where signatures are of ASCII and do not hold the separator, a text unsigns to a value exactly when
-- it is that value as the signer signs it.
pub unsign_iff :
    (s : Signer) (signed value : Text)
    → IsClean s
    → (unsign s signed ≡ signed_value value) ↔ (signed ≡ sign s value)
unfolding unsign sign
unsign_iff s signed value clean =
    let no_sep = All-map (λ c h. h.0) (get_signature s value) (clean value) in
    let ascii =
      all-ascii (get_signature s value)
        (All-map (λ c h. h.1) (get_signature s value) (clean value)) in
    (
      λ h. rsplit_once_sound s.sep signed (check_parts_sound s (rsplit_once s.sep signed) h),
      λ h.
          ap (λ t. check_parts s (rsplit_once s.sep t)) h
          ∙ ap (check_parts s) (rsplit_once-append s.sep value (get_signature s value) no_sep)
          ∙ rw ascii (rw (text_eq_refl (get_signature s value)) refl),
    )
