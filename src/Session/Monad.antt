-- ===== src/Session/Monad.antt =====
-- Methods that work on a session and may raise: what was stored before a raise stays stored.
use compliance_pulse.Prelude.{
  ℕ, suc, ◌≡◌, refl, Text, Option, none, some, codes, decimal, ◌⊎◌, inl, inr, ◌++◌,
}
use compliance_pulse.Models.Scanning.{Time}
use compliance_pulse.Session.World.{World}

-- The exceptions of the program by class, each with its message.
pub data Error : Type 0 where
  value_error permission_error runtime_error other_error : Text → Error
  http : ℕ → Text → Error

-- `str(exc)`
unfoldable pub message : Error → Text
message (value_error m) = m
message (permission_error m) = m
message (runtime_error m) = m
message (other_error m) = m
message (http status m) = decimal status ++ (codes ": " ++ m)

pub data Result {ℓ} (A : Type ℓ) : Type ℓ where
  ok : A → Result A
  err : Error → Result A

pub ok-injective : {A : Type 0} {a b : A} → ok a ≡ ok b → a ≡ b
ok-injective h = cc

-- A step without a value succeeds or raises.
pub Result-cases : (r : Result (Unit {0})) → (r ≡ ok tt) ⊎ ((e : Error) × (r ≡ err e))
Result-cases (ok _) = inl refl
Result-cases (err e) = inr (e, refl)

abbrev pub M : Type 0 → Type 0
M A = World → Result A × World

abbrev pub continue : {A B : Type 0} → Result A × World → (A → M B) → Result B × World
continue (ok a, w) f = f a w
continue (err e, w) f = (err e, w)

infixl 5 ◌>>=◌ ◌>>◌
abbrev pub ◌>>=◌ : {A B : Type 0} → M A → (A → M B) → M B
◌>>=◌ m f w = continue (m w) f

abbrev pub ◌>>◌ : {A B : Type 0} → M A → M B → M B
m >> n = m >>= λ _. n

abbrev pub pure : {A : Type 0} → A → M A
pure a w = (ok a, w)

abbrev pub raise : {A : Type 0} → Error → M A
raise e w = (err e, w)

abbrev pub lift : {A : Type 0} → Result A → M A
lift r w = (r, w)

abbrev pub gets : {A : Type 0} → (World → A) → M A
gets f w = (ok (f w), w)

abbrev pub modify : (World → World) → M (Unit {0})
modify f w = (ok tt, f w)

abbrev pub or_raise : {A : Type 0} → Error → Option A → Result A
or_raise e none = err e
or_raise e (some a) = ok a

-- `datetime.utcnow()`
unfoldable pub utcnow : M Time
utcnow w = (ok (w.clock w.reads), record w { reads = suc w.reads })

-- The primary key that the database gives a new row. Keys are never reused.
unfoldable pub fresh_id : M ℕ
fresh_id w = (ok w.next_id, record w { next_id = suc w.next_id })

-- `secrets.token_urlsafe`, `secrets.token_hex`
unfoldable pub draw : M Text
draw w = (ok (w.random w.draws), record w { draws = suc w.draws })

continue-eq-ok :
    {A B : Type 0} (r : Result A × World) (f : A → M B) {b : B} {w' : World}
    → continue r f ≡ (ok b, w')
    → (a : A) × (v : World) × (r ≡ (ok a, v)) × (f a v ≡ (ok b, w'))
continue-eq-ok (ok a, v) f h = (a, v, refl, h)
continue-eq-ok (err e, v) f h = absurd (cc)

-- A step that returned is one part after the other, each of which returned.
pub >>=-eq-ok :
    {A B : Type 0} (m : M A) (f : A → M B) (w : World) {b : B} {w' : World}
    → (m >>= f) w ≡ (ok b, w')
    → (a : A) × (v : World) × (m w ≡ (ok a, v)) × (f a v ≡ (ok b, w'))
>>=-eq-ok m f w h = continue-eq-ok (m w) f h

pub returned-injective :
    {A : Type 0} {a b : A} {v w : World}
    → ◌≡◌ {A = Result A × World} (ok a, v) (ok b, w)
    → (a ≡ b) × (v ≡ w)
returned-injective h = (cc, cc)
