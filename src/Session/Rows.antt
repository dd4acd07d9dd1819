-- ===== src/Session/Rows.antt =====
-- What a lookup by key finds (`session.get`).
use compliance_pulse.Prelude.{
  ℕ, ◌≡◌, refl, inl, inr, Bool, true, false, some, List, [], ◌∷◌, ◌++◌, first_where,
  first_where-Has, where_rows, Has, Has-where_rows, All, Bool-cases,
}
use compliance_pulse.Session.World.{World, get_row, sees}

module _ {A : Type 0} where
  -- A row that is found is stored under its key.
  pub get_row-Has :
      (org_of : A → ℕ) (is_key : A → Bool) (w : World) (rows : List A) {a : A}
      → get_row org_of is_key w rows ≡ some a
      → Has a rows × (is_key a ≡ true)
  unfolding get_row
  get_row-Has org_of is_key w rows h = elim (Bool-cases w.get_filtered) [
    | inl e ↦
        let (there, passes) =
          first_where-Has is_key (where_rows (λ r. sees w.organization_id (org_of r)) rows)
            (rw e at h) in
        ((Has-where_rows (λ r. sees w.organization_id (org_of r)) rows there).0, passes)
    | inr e ↦ first_where-Has is_key rows (rw e at h)
  ]

  pub first_where-last :
      (p : A → Bool) (rows : List A) (a : A)
      → All (λ b. p b ≡ false) rows
      → p a ≡ true
      → first_where p (rows ++ a ∷ []) ≡ some a
  unfolding first_where
  first_where-last p [] a h e = rw e refl
  first_where-last p (b ∷ rows) a h e = rw h.0 (first_where-last p rows a h.1 e)

  filtered-last :
      (p keep : A → Bool) (rows : List A) (a : A)
      → All (λ b. p b ≡ false) rows
      → p a ≡ true
      → keep a ≡ true
      → first_where p (where_rows keep (rows ++ a ∷ [])) ≡ some a
  unfolding first_where where_rows
  filtered-last p keep [] a h e k = rw k (rw e refl)
  filtered-last p keep (b ∷ rows) a h e k = elim (Bool-cases (keep b)) [
    | inl kept ↦ rw kept (rw h.0 (filtered-last p keep rows a h.1 e k))
    | inr dropped ↦ rw dropped (filtered-last p keep rows a h.1 e k)
  ]

  -- A row that was stored last under a new key is found by a session that sees it.
  pub get_row-last :
      (org_of : A → ℕ) (is_key : A → Bool) (w : World) (rows : List A) (a : A)
      → All (λ b. is_key b ≡ false) rows
      → is_key a ≡ true
      → sees w.organization_id (org_of a) ≡ true
      → get_row org_of is_key w (rows ++ a ∷ []) ≡ some a
  unfolding get_row
  get_row-last org_of is_key w rows a h e k = elim (Bool-cases w.get_filtered) [
    | inl filtered ↦
        rw filtered (filtered-last is_key (λ r. sees w.organization_id (org_of r)) rows a h e k)
    | inr all_rows ↦ rw all_rows (first_where-last is_key rows a h e)
  ]
