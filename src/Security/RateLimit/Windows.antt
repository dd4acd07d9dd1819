-- ===== src/Security/RateLimit/Windows.antt =====
-- The fixed windows of backend/app/security/rate_limit.py over several hits.
use compliance_pulse.Prelude.{
  ℕ, suc, ◌+◌, ◌-◌, ◌*◌, ◌≤◌, ◌<◌, min, Text, ◌≡◌, ◌∙◌, ◌≢◌, ◌⊎◌, inl, inr, true, false, none, some,
  List, [], ◌∷◌, length, All, arith, text_eq_refl, text_eq_iff, leb, lookup, lookup-insert,
  if◌then◌else◌,
}
use compliance_pulse.Models.Scanning.{Time}
use compliance_pulse.Models.Limits.{Window, Store}
use compliance_pulse.Security.RateLimit.{second, window_or, renewed, bump, verdict, hit}

-- How many of a sequence of hits under one key are allowed.
unfoldable pub allowed_count : Text → ℕ → ℕ → List Time → Store → ℕ
allowed_count key limit window_seconds [] store = 0
allowed_count key limit window_seconds (now ∷ later) store =
    let (answer, store') = hit key limit window_seconds now store in
    (if answer.0 then 1 else 0) + allowed_count key limit window_seconds later store'

abbrev reset_at : Time → Window
reset_at now = record { start = now; count = 0 }

lookup-hit_self :
    (key : Text) (limit window_seconds : ℕ) (now : Time) (store : Store)
    → lookup key (hit key limit window_seconds now store).1
      ≡ some (bump (renewed window_seconds now (window_or now (lookup key store))))
unfolding hit
lookup-hit_self key limit window_seconds now store = simp (lookup-insert, text_eq_refl)

hit_found :
    (key : Text) (limit window_seconds : ℕ) (now : Time) (store : Store) (w : Window)
    → lookup key store ≡ some w
    → (hit key limit window_seconds now store).0
      ≡ verdict limit window_seconds now (bump (renewed window_seconds now w))
unfolding hit
hit_found key limit window_seconds now store w found = rw found

-- A hit under one key leaves the window of every other key as it was.
pub lookup-hit_ne :
    (key other : Text) (limit window_seconds : ℕ) (now : Time) (store : Store)
    → key ≢ other
    → lookup other (hit key limit window_seconds now store).1 ≡ lookup other store
unfolding hit
lookup-hit_ne key other limit window_seconds now store h =
    simp lookup-insert (ground (arith, text_eq_iff key other))

-- A hit in an open window is counted, and allowed while the count is within the limit.
hit_open :
    (key : Text) (limit window_seconds : ℕ) (now : Time) (store : Store) (w : Window)
    → lookup key store ≡ some w
    → now < w.start + window_seconds * second
    → ((hit key limit window_seconds now store).0.0 ≡ leb (w.count + 1) limit)
      × (lookup key (hit key limit window_seconds now store).1 ≡ some (bump w))
unfolding hit renewed bump verdict
hit_open key limit window_seconds now store w found soon = (
  ground (arith, found, soon),
  ground (arith, lookup-hit_self key limit window_seconds now store, found, soon),
)

count_open :
    (key : Text) (limit window_seconds : ℕ) (times : List Time) (store : Store) (w : Window)
    → lookup key store ≡ some w
    → All (λ now. now < w.start + window_seconds * second) times
    → allowed_count key limit window_seconds times store ≡ min (length times) (limit - w.count)
unfolding allowed_count bump
count_open key limit window_seconds [] store w found soon = omega arith
count_open key limit window_seconds (now ∷ later) store w found soon =
    let step = hit_open key limit window_seconds now store w found soon.0 in
    let rest =
      count_open key limit window_seconds later (hit key limit window_seconds now store).1 (bump w)
        step.1 soon.1 in
    ground (arith, step.0, rest)

-- The key has no window, or one that has run out.
abbrev pub IsIdle : Text → ℕ → Time → Store → Type 0
IsIdle key window_seconds now store =
    (lookup key store ≡ none)
    ⊎ ((w : Window) × (lookup key store ≡ some w) × (w.start + window_seconds * second ≤ now))

hit_idle :
    (key : Text) (limit window_seconds : ℕ) (now : Time) (store : Store)
    → IsIdle key window_seconds now store
    → ((hit key limit window_seconds now store).0.0 ≡ leb 1 limit)
      × (lookup key (hit key limit window_seconds now store).1 ≡ some (bump (reset_at now)))
unfolding hit renewed bump verdict
hit_idle key limit window_seconds now store (inl fresh) = (
  ground (arith, fresh),
  ground (arith, lookup-hit_self key limit window_seconds now store, fresh),
)
hit_idle key limit window_seconds now store (inr (w, found, over)) = (
  ground (arith, found, over),
  ground (arith, lookup-hit_self key limit window_seconds now store, found, over),
)

-- Of the hits under a key from the one that opens a window until the window ends, the first
-- `limit` are allowed and no more, in whatever order the clock gives their times.
pub allowed_count-window :
    (key : Text) (limit window_seconds : ℕ) (now : Time) (later : List Time) (store : Store)
    → IsIdle key window_seconds now store
    → All (λ t. t < now + window_seconds * second) later
    → allowed_count key limit window_seconds (now ∷ later) store ≡ min (suc (length later)) limit
unfolding allowed_count bump
allowed_count-window key limit window_seconds now later store idle soon =
    let step = hit_idle key limit window_seconds now store idle in
    let rest =
      count_open key limit window_seconds later (hit key limit window_seconds now store).1
        (bump (reset_at now)) step.1 soon in
    ground (arith, step.0, rest)

verdict-refused :
    (limit window_seconds retry_after : ℕ) (now : Time) (w : Window)
    → verdict limit window_seconds now w ≡ (false, retry_after)
    → w.start + window_seconds * second < now + (retry_after + 1) * second
unfolding verdict
verdict-refused limit window_seconds retry_after now w h = ground arith

verdict-reopened :
    (limit window_seconds : ℕ) (back : Time) (w : Window)
    → 1 ≤ limit
    → w.start + window_seconds * second ≤ back
    → verdict limit window_seconds back (bump (renewed window_seconds back w)) ≡ (true, 0)
unfolding verdict bump renewed
verdict-reopened limit window_seconds back w pos over = ground arith

-- A client that is refused and comes back one second after the time that it was told is allowed,
-- where the limit allows any hit.
pub hit_again :
    (key : Text) (limit window_seconds retry_after : ℕ) (now back : Time) (store : Store)
    → 1 ≤ limit
    → (hit key limit window_seconds now store).0 ≡ (false, retry_after)
    → now + (retry_after + 1) * second ≤ back
    → (hit key limit window_seconds back (hit key limit window_seconds now store).1).0 ≡ (true, 0)
hit_again key limit window_seconds retry_after now back store pos refused waited =
    let w = bump (renewed window_seconds now (window_or now (lookup key store))) in
    let over = verdict-refused limit window_seconds retry_after now w (unfold hit in refused) in
    hit_found key limit window_seconds back _ w (lookup-hit_self key limit window_seconds now store)
    ∙ verdict-reopened limit window_seconds back w pos (omega arith)
