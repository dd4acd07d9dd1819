-- ===== src/Security/ApiKeys/Scopes.antt =====
-- The scopes of a key as backend/app/security/api_keys.py stores and reads them.
use compliance_pulse.Prelude.{
  ℕ, ◌≡◌, refl, ap, Text, false, List, [], ◌∷◌, ◌==◌, is_empty, split_on, split_on-append,
  split_on-absent, where_rows, All, text_mem, arith,
}
use compliance_pulse.Engine.Scoring.{sorted_union}
use compliance_pulse.Engine.Scoring.Tags.{
  IsSorted, All-sorted_union, sorted_union-IsSorted, mem-sorted_union,
}
use compliance_pulse.Security.ApiKeys.{join_commas, encode_scopes, decode_scopes}

-- A scope that a comma-separated list can hold
abbrev pub IsScope : Text → Type 0
IsScope scope = (is_empty scope ≡ false) × All (λ (c : ℕ). (c == b',') ≡ false) scope

decode_scopes-join_commas :
    (scopes : List Text) → All IsScope scopes → decode_scopes (join_commas scopes) ≡ scopes
unfolding decode_scopes join_commas where_rows split_on
decode_scopes-join_commas [] h = refl
decode_scopes-join_commas (scope ∷ []) h = rw (split_on-absent b',' scope h.0.1) (rw h.0.0 refl)
decode_scopes-join_commas (scope ∷ next ∷ scopes) h =
    rw (split_on-append b',' scope (join_commas (next ∷ scopes)) h.0.1)
      (rw h.0.0 (ap (λ r. scope ∷ r) (decode_scopes-join_commas (next ∷ scopes) h.1)))

-- Scopes that are not empty and hold no comma are read back from what is stored: each once, in
-- order, and no others.
pub decode_scopes-encode_scopes :
    (scopes : List Text)
    → All IsScope scopes
    → IsSorted (decode_scopes (encode_scopes scopes))
      × ((scope : Text)
          → text_mem scope (decode_scopes (encode_scopes scopes)) ≡ text_mem scope scopes)
unfolding encode_scopes text_mem
decode_scopes-encode_scopes scopes h =
    let read =
      decode_scopes-join_commas (sorted_union scopes [])
        (All-sorted_union IsScope scopes [] h tt) in
    rw read (
      (
        sorted_union-IsSorted scopes [] tt,
        λ scope. ground (arith, mem-sorted_union scope scopes []),
      ))
