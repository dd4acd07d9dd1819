-- ===== src/Services/Benchmarks/Tenants.antt =====
-- Loading benchmarks for one organization, and the others' rules
-- (backend/app/services/benchmark_loader.py).
use compliance_pulse.Prelude.{
  ℕ, suc, ◌≡◌, refl, ◌∙◌, arith, inl, inr, Bool, true, false, Option, none, some, List, [], ◌∷◌,
  ◌++◌, not, ◌==◌, where_rows, Bool-cases,
}
use compliance_pulse.Models.Scanning.{Benchmark, Rule}
use compliance_pulse.Session.World.{World}
use compliance_pulse.Session.Monad.{M, Result, ok, err, lift, utcnow, continue, ◌>>=◌}
use compliance_pulse.Services.Benchmarks.{
  Columns, RuleDefinition, BenchmarkDocument, parse, flush, upsert, upsert_benchmark, rule_row,
  add_row, add_rules, is_replaced, delete_rules, replace_rules, load_document, load_files,
  or_rolled_back, load_all,
}

-- The rules of the other organizations
abbrev pub others : ℕ → World → List Rule
others organization_id w =
    where_rows (λ (r : Rule). not (r.organization_id == organization_id)) w.rules

pub record KeepsOthers {A : Type 0} (organization_id : ℕ) (m : M A) : Type 0 where
  pub at : (w : World) → others organization_id (m w).1 ≡ others organization_id w

where_rows-kept :
    {A : Type 0} (keep p : A → Bool) (rows : List A)
    → ((a : A) → keep a ≡ true → p a ≡ true)
    → where_rows keep (where_rows p rows) ≡ where_rows keep rows
unfolding where_rows
where_rows-kept keep p [] h = refl
where_rows-kept keep p (a ∷ rows) h = elim (Bool-cases (p a)) [
  | inl kept ↦ rw kept (ground (arith, where_rows-kept keep p rows h))
  | inr gone ↦ elim (Bool-cases (keep a)) [
    | inl wanted ↦ absurd (cc (h a wanted, gone))
    | inr other ↦ rw gone (rw other (where_rows-kept keep p rows h))
  ]
]

where_rows-added :
    {A : Type 0} (keep : A → Bool) (rows : List A) (a : A)
    → keep a ≡ false
    → where_rows keep (rows ++ a ∷ []) ≡ where_rows keep rows
unfolding where_rows
where_rows-added keep [] a h = rw h refl
where_rows-added keep (b ∷ rows) a h = ground (arith, where_rows-added keep rows a h)

module _ {A B : Type 0} (organization_id : ℕ) where
  continue-others :
      (r : Result A × World) (f : A → M B)
      → ((a : A) → KeepsOthers organization_id (f a))
      → others organization_id (continue r f).1 ≡ others organization_id r.1
  continue-others (ok a, w) f h = (h a).at w
  continue-others (err e, w) f h = refl

  KeepsOthers-bind :
      (m : M A) (f : A → M B)
      → KeepsOthers organization_id m
      → ((a : A) → KeepsOthers organization_id (f a))
      → KeepsOthers organization_id (m >>= f)
  KeepsOthers-bind m f km kf = record { at = λ w. continue-others (m w) f kf ∙ km.at w }

flush-KeepsOthers : (organization_id : ℕ) → KeepsOthers organization_id flush
unfolding flush
flush-KeepsOthers organization_id = record { at = λ w. ground arith }

upsert-others :
    (document : BenchmarkDocument) (organization_id : ℕ) (found : Option Benchmark) (w : World)
    → others organization_id (upsert document found w).1 ≡ others organization_id w
unfolding utcnow
upsert-others document organization_id none w = refl
upsert-others document organization_id (some old) w = refl

upsert_benchmark-KeepsOthers :
    (document : BenchmarkDocument) (organization_id : ℕ)
    → KeepsOthers organization_id (upsert_benchmark document)
unfolding upsert_benchmark
upsert_benchmark-KeepsOthers document organization_id = record {
  at = λ w. upsert-others document organization_id _ w;
}

add_rules-others :
    (c : Columns) (document : BenchmarkDocument) (organization_id : ℕ) (rules : List RuleDefinition)
    (w : World)
    → others organization_id (add_rules c document organization_id rules w).1
      ≡ others organization_id w
unfolding add_rules utcnow rule_row
add_rules-others c document organization_id [] w = refl
add_rules-others c document organization_id (rule ∷ rules) w =
    let row = rule_row c document organization_id rule (w.clock w.reads) in
    add_rules-others c document organization_id rules
      (add_row row (record w { reads = suc w.reads }))
    ∙ where_rows-added (λ (r : Rule). not (r.organization_id == organization_id)) w.rules row
        (ground arith)

replace_rules-KeepsOthers :
    (c : Columns) (document : BenchmarkDocument) (organization_id : ℕ)
    → KeepsOthers organization_id (replace_rules c document organization_id)
unfolding replace_rules
replace_rules-KeepsOthers c document organization_id = record {
  at = λ w.
      add_rules-others c document organization_id document.rules
        (delete_rules document organization_id w)
      ∙ where_rows-kept (λ (r : Rule). not (r.organization_id == organization_id))
          (λ r. not (is_replaced document organization_id r)) w.rules (λ r h. ground arith);
}

load_document-KeepsOthers :
    (c : Columns) (organization_id : ℕ) (document : BenchmarkDocument)
    → KeepsOthers organization_id (load_document c organization_id document)
load_document-KeepsOthers c organization_id document =
    KeepsOthers-bind organization_id flush _ (flush-KeepsOthers organization_id) (λ _.
      KeepsOthers-bind organization_id (upsert_benchmark document) _
        (upsert_benchmark-KeepsOthers document organization_id)
        (λ benchmark.
          KeepsOthers-bind organization_id (replace_rules c document organization_id) _
            (replace_rules-KeepsOthers c document organization_id)
            (λ _. record { at = λ w. refl })))

load_files-KeepsOthers :
    (c : Columns) (organization_id : ℕ) (files : List (Result BenchmarkDocument))
    → KeepsOthers organization_id (load_files c organization_id files)
unfolding load_files
load_files-KeepsOthers c organization_id [] =
    KeepsOthers-bind organization_id flush _ (flush-KeepsOthers organization_id)
      (λ _. record { at = λ w. refl })
load_files-KeepsOthers c organization_id (file ∷ files) =
    KeepsOthers-bind organization_id (lift (parse file)) _ (record { at = λ w. refl })
      (λ document.
        KeepsOthers-bind organization_id (load_document c organization_id document) _
          (load_document-KeepsOthers c organization_id document)
          (λ benchmark.
            KeepsOthers-bind organization_id (load_files c organization_id files) _
              (load_files-KeepsOthers c organization_id files)
              (λ benchmarks. record { at = λ w. refl })))

rolled_back-others :
    {A : Type 0} (organization_id : ℕ) (w : World) (r : Result A × World)
    → others organization_id r.1 ≡ others organization_id w
    → others organization_id (or_rolled_back w r).1 ≡ others organization_id w
rolled_back-others organization_id w (ok a, w') h = h
rolled_back-others organization_id w (err e, w') h = refl

-- Loading the benchmark files for one organization leaves the rules of every other organization as
-- they were and in their order, whether the loading returns or raises.
pub load_all-others :
    (c : Columns) (files : List (Result BenchmarkDocument)) (organization_id : ℕ) (w : World)
    → others organization_id (load_all c files organization_id w).1 ≡ others organization_id w
unfolding load_all
load_all-others c files organization_id w =
    rolled_back-others organization_id w (load_files c organization_id files w)
      ((load_files-KeepsOthers c organization_id files).at w)
