-- ===== src/Security/Masking/Hiding.antt =====
-- What masking hides and keeps: backend/app/security/utils.py.
use compliance_pulse.Prelude.{
  ℕ, ◌-◌, ◌+◌, ◌≤◌, ◌<◌, Text, ◌≡◌, refl, ◌≢◌, ◌⊎◌, inl, inr, true, [], ◌∷◌, ◌++◌, length,
  length-append, length-replicate, length-drop, drop-length, append-nil, drop, replicate, lower,
  text_mem, arith, ap, some, Bool-cases, leb,
}
use compliance_pulse.Models.Scanning.{Value, Metadata, null, text, number, flag, other}
use compliance_pulse.Security.Masking.{
  star, mask_secret, sensitive_keys, value_text, sanitize_value, sanitize_items, sanitize_metadata,
}

-- A mask that shows some characters has the length of the secret: stars for the first `hidden`
-- characters and the secret's own behind them, where `hidden` leaves out the last `visible`, or is
-- everything if there are no more than those.
pub mask_secret-shape :
    (value : Text) (visible : ℕ)
    → 0 < visible
    → (hidden : ℕ) × (length (mask_secret value visible) ≡ length value)
      × (mask_secret value visible ≡ replicate hidden star ++ drop hidden value)
      × (((hidden + visible ≡ length value) × (visible < length value))
          ⊎ ((hidden ≡ length value) × (length value ≤ visible)))
unfolding mask_secret
mask_secret-shape value visible pos = elim (Bool-cases (leb (length value) visible)) [
  | inl short ↦ (
    length value,
    ground (arith, short, length-replicate (length value) star),
    ground (arith, short, drop-length value, append-nil (replicate (length value) star)),
    inr (refl, ground (arith, short)),
  )
  | inr long ↦ (
    length value - visible,
    ground (
      arith,
      long,
      length-append (replicate (length value - visible) star) (drop (length value - visible) value),
      length-replicate (length value - visible) star,
      length-drop (length value - visible) value,
    ),
    ground (arith, long),
    inl (ground (arith, long), ground (arith, long)),
  )
]

-- What a mask tells of a secret: its length, and its last `visible` characters if it is longer.
pub record SameMask (visible : ℕ) (v w : Text) : Type 0 where
  pub long : length v ≡ length w
  pub tail : visible < length v → drop (length v - visible) v ≡ drop (length w - visible) w

-- Secrets of one length with the same last `visible` characters have one mask; where they are no
-- longer than that, their length alone decides it.
pub mask_secret-hides :
    (v w : Text) (visible : ℕ)
    → 0 < visible
    → SameMask visible v w
    → mask_secret v visible ≡ mask_secret w visible
unfolding mask_secret
mask_secret-hides v w visible pos same = elim (Bool-cases (leb (length v) visible)) [
  | inl short ↦ ground (arith, short, same.long)
  | inr long ↦ ground (arith, long, same.long, same.tail (ground (arith, long)))
]

-- Two values that an entry under `key` may not tell apart.
pub data Alike (key : Text) : Value → Value → Type 0 where
  same : (v : Value) → Alike key v v
  masked :
      (v w : Value)
      → text_mem (lower key) sensitive_keys ≡ true
      → v ≢ null
      → w ≢ null
      → SameMask 4 (value_text v) (value_text w)
      → Alike key v w

-- Dictionaries with the same keys, in their order, and values alike under each.
pub data AlikeItems : Metadata → Metadata → Type 0 where
  nil : AlikeItems [] []
  cons :
      (key : Text) {v w : Value} {xs ys : Metadata}
      → Alike key v w
      → AlikeItems xs ys
      → AlikeItems ((key, v) ∷ xs) ((key, w) ∷ ys)

sanitize_value-masked :
    (key : Text) (v : Value)
    → text_mem (lower key) sensitive_keys ≡ true
    → v ≢ null
    → sanitize_value key v ≡ text (mask_secret (value_text v) 4)
unfolding sanitize_value
sanitize_value-masked key null s h = absurd (h refl)
sanitize_value-masked key (text t) s h = rw s
sanitize_value-masked key (number n) s h = rw s
sanitize_value-masked key (flag b) s h = rw s
sanitize_value-masked key (other t) s h = rw s

sanitize_value-hides :
    {key : Text} {v w : Value} → Alike key v w → sanitize_value key v ≡ sanitize_value key w
sanitize_value-hides (same v) = refl
sanitize_value-hides {key} (masked v w s hv hw m) =
    rw (sanitize_value-masked key v s hv, sanitize_value-masked key w s hw)
      (ap text (mask_secret-hides (value_text v) (value_text w) 4 (omega arith) m))

sanitize_items-hides : {xs ys : Metadata} → AlikeItems xs ys → sanitize_items xs ≡ sanitize_items ys
unfolding sanitize_items
sanitize_items-hides nil = refl
sanitize_items-hides (cons key a rest) = cc (sanitize_value-hides a, sanitize_items-hides rest)

-- Sanitized metadata tell nothing of a sensitive key's value but its length and, if it is longer
-- than four characters, the last four: metadata that agree on those, and elsewhere, become equal.
pub sanitize_metadata-hides :
    {xs ys : Metadata}
    → AlikeItems xs ys
    → sanitize_metadata (some xs) ≡ sanitize_metadata (some ys)
unfolding sanitize_metadata
sanitize_metadata-hides h = sanitize_items-hides h
