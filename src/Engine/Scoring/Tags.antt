-- ===== src/Engine/Scoring/Tags.antt =====
-- The tags of a scan in backend/engine/scan_executor.py: `sorted` of a set.
use compliance_pulse.Prelude.{
  ◌≡◌, Text, refl, ◌⊎◌, inl, inr, arith, true, false, Option, some, List, [], ◌∷◌, text_eq,
  text_eq_iff, text_mem, ◌||◌, Bool-cases, All, All-map,
}
use compliance_pulse.Models.Scanning.{Rule, loads}
use compliance_pulse.Engine.Scoring.{text_ltb, insert_sorted, sorted_union}

text_ltb_trans : (r s t : Text) → text_ltb r s ≡ true → text_ltb s t ≡ true → text_ltb r t ≡ true
unfolding text_ltb
text_ltb_trans r s [] h k = absurd (cc)
text_ltb_trans [] [] (c ∷ t) h k = refl
text_ltb_trans (a ∷ r) [] (c ∷ t) h k = absurd (cc)
text_ltb_trans [] (b ∷ s) (c ∷ t) h k = refl
text_ltb_trans (a ∷ r) (b ∷ s) (c ∷ t) h k = ground (arith, text_ltb_trans r s t)

-- Of two texts one comes first, unless they are equal.
text_ltb_total : (s t : Text) → text_eq s t ≡ false → text_ltb s t ≡ false → text_ltb t s ≡ true
unfolding text_ltb text_eq
text_ltb_total [] [] h k = absurd (cc)
text_ltb_total [] (b ∷ t) h k = absurd (cc)
text_ltb_total (a ∷ s) [] h k = refl
text_ltb_total (a ∷ s) (b ∷ t) h k = ground (arith, text_ltb_total s t)

-- Each text comes before all that stand behind it, so none stands twice.
abbrev pub IsSorted : List Text → Type 0
IsSorted [] = Unit
IsSorted (x ∷ xs) = All (λ y. text_ltb x y ≡ true) xs × IsSorted xs

All-insert_sorted :
    (P : Text → Type 0) (t : Text) (xs : List Text) → P t → All P xs → All P (insert_sorted t xs)
unfolding insert_sorted
All-insert_sorted P t [] p h = (p, tt)
All-insert_sorted P t (x ∷ xs) p h = ground (arith, All-insert_sorted P t xs p h.1)

pub All-sorted_union :
    (P : Text → Type 0) (ts xs : List Text) → All P ts → All P xs → All P (sorted_union ts xs)
unfolding sorted_union
All-sorted_union P [] xs h k = k
All-sorted_union P (t ∷ ts) xs h k =
    All-insert_sorted P t (sorted_union ts xs) h.0 (All-sorted_union P ts xs h.1 k)

insert_sorted-IsSorted : (t : Text) (xs : List Text) → IsSorted xs → IsSorted (insert_sorted t xs)
unfolding insert_sorted
insert_sorted-IsSorted t [] s = (tt, tt)
insert_sorted-IsSorted t (x ∷ xs) s = elim (Bool-cases (text_eq t x)) [
  | inl same ↦ rw same s
  | inr new ↦ elim (Bool-cases (text_ltb t x)) [
    | inl before ↦ rw (new, before) ((before, All-map (λ y. text_ltb_trans t x y before) xs s.0), s)
    | inr behind ↦
        rw (new, behind)
          (
            All-insert_sorted (λ y. text_ltb x y ≡ true) t xs (text_ltb_total t x new behind) s.0,
            insert_sorted-IsSorted t xs s.1,
          )
  ]
]

pub sorted_union-IsSorted : (ts xs : List Text) → IsSorted xs → IsSorted (sorted_union ts xs)
unfolding sorted_union
sorted_union-IsSorted [] xs s = s
sorted_union-IsSorted (t ∷ ts) xs s =
    insert_sorted-IsSorted t (sorted_union ts xs) (sorted_union-IsSorted ts xs s)

mem-insert_sorted :
    (s t : Text) (xs : List Text) → text_mem s (insert_sorted t xs) ≡ (text_eq t s || text_mem s xs)
unfolding insert_sorted text_mem
mem-insert_sorted s t [] = refl
mem-insert_sorted s t (x ∷ xs) =
    ground (arith, mem-insert_sorted s t xs, text_eq_iff t x, text_eq_iff t s, text_eq_iff x s)

pub mem-sorted_union :
    (s : Text) (ts xs : List Text)
    → text_mem s (sorted_union ts xs) ≡ (text_mem s ts || text_mem s xs)
unfolding sorted_union text_mem
mem-sorted_union s [] xs = refl
mem-sorted_union s (t ∷ ts) xs =
    ground (arith, mem-insert_sorted s t (sorted_union ts xs), mem-sorted_union s ts xs)

-- Some rule's column holds the tag.
abbrev pub HasTag : Text → List Rule → Type 0
HasTag tag [] = ⊥
HasTag tag (rule ∷ rules) =
    ((own : List Text) × (loads [] rule.tags_json ≡ some own) × (text_mem tag own ≡ true))
    ⊎ HasTag tag rules
