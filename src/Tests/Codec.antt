-- ===== src/Tests/Codec.antt =====
-- A way of writing dictionaries that reads back what it wrote, in place of JSON.
use compliance_pulse.Prelude.{
  ℕ, ◌+◌, ◌-◌, pos, negsuc, ◌≡◌, refl, ap, ◌∙◌, arith, Text, true, false, some, none, Option, [],
  ◌∷◌, ◌==◌, if◌then◌else◌,
}
use compliance_pulse.Models.Scanning.{Value, null, text, number, flag, other, Metadata}
use compliance_pulse.Auth.Payload.{Codec, IsCodec}

-- What is read so far, from the end: the characters before the next mark, the value before the next
-- key, and the entries
record Reader : Type 0 where
  chars : Text
  value : Value
  entries : Metadata

abbrev fresh : Metadata → Reader
fresh entries = record { chars = []; value = null; entries = entries }

abbrev first_code : Text → ℕ
first_code [] = 0
first_code (c ∷ t) = c

abbrev valued : Value → Reader → Reader
valued v r = record r { chars = []; value = v }

abbrev step : ℕ → Reader → Reader
step c r =
    if c == 0
    then fresh ((r.chars, r.value) ∷ r.entries)
    else if c == 1
    then valued (text r.chars) r
    else if c == 2
    then valued (other r.chars) r
    else if c == 3
    then valued null r
    else if c == 4
    then valued (flag true) r
    else if c == 5
    then valued (flag false) r
    else if c == 6
    then valued (number (pos (first_code r.chars))) r
    else if c == 7
    then valued (number (negsuc (first_code r.chars))) r
    else record r { chars = (c - 8) ∷ r.chars }

abbrev read : Text → Reader
read [] = fresh []
read (c ∷ s) = step c (read s)

abbrev put : Text → Text → Text
put [] s = s
put (c ∷ t) s = (c + 8) ∷ put t s

abbrev put_value : Value → Text → Text
put_value null s = 3 ∷ s
put_value (text t) s = 1 ∷ put t s
put_value (other t) s = 2 ∷ put t s
put_value (flag true) s = 4 ∷ s
put_value (flag false) s = 5 ∷ s
put_value (number (pos n)) s = 6 ∷ put (n ∷ []) s
put_value (number (negsuc n)) s = 7 ∷ put (n ∷ []) s

abbrev written : Metadata → Text
written [] = 3 ∷ []
written ((k, v) ∷ entries) = 0 ∷ put k (put_value v (written entries))

abbrev with_chars : Text → Reader → Reader
with_chars t r = record r { chars = t }

step-char : (c : ℕ) (r : Reader) → step (c + 8) r ≡ record r { chars = c ∷ r.chars }
step-char c r = let same : (c + 8) - 8 ≡ c = omega arith in ground (arith, same)

read-put :
    (t s : Text) (v : Value) (entries : Metadata)
    → read s ≡ record { chars = []; value = v; entries = entries }
    → read (put t s) ≡ record { chars = t; value = v; entries = entries }
read-put [] s v entries h = h
read-put (c ∷ t) s v entries h = ap (step (c + 8)) (read-put t s v entries h) ∙ step-char c _

read-put_value :
    (v : Value) (s : Text) (entries : Metadata)
    → read s ≡ fresh entries
    → read (put_value v s) ≡ record { chars = []; value = v; entries = entries }
read-put_value null s entries h = ap (step 3) h
read-put_value (text t) s entries h = ap (step 1) (read-put t s null entries h)
read-put_value (other t) s entries h = ap (step 2) (read-put t s null entries h)
read-put_value (flag true) s entries h = ap (step 4) h
read-put_value (flag false) s entries h = ap (step 5) h
read-put_value (number (pos n)) s entries h = ap (step 6) (read-put (n ∷ []) s null entries h)
read-put_value (number (negsuc n)) s entries h = ap (step 7) (read-put (n ∷ []) s null entries h)

read-written : (entries : Metadata) → read (written entries) ≡ fresh entries
read-written [] = refl
read-written ((k, v) ∷ entries) = ap (step 0) (
    read-put k (put_value v (written entries)) v entries
      (read-put_value v (written entries) entries (read-written entries)))

abbrev read_time : Text → Option ℕ
read_time [] = none
read_time (t ∷ s) = some t

abbrev pub codec : Codec
codec = record {
  isoformat = λ t. t ∷ [];
  fromisoformat = λ s. read_time s;
  dumps = λ entries. written entries;
  loads = λ s. some (read s).entries;
}

written-full : (entries : Metadata) → written entries ≡ [] → ⊥
written-full [] h = cc
written-full ((k, v) ∷ entries) h = cc

pub codec-IsCodec : IsCodec codec
codec-IsCodec = record {
  time_read = λ t. refl;
  data_read = λ entries. ap (λ (r : Reader). some r.entries) (read-written entries);
  full = λ entries. written-full entries;
}
