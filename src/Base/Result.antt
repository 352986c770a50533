-- ===== src/Base/Result.antt =====
-- Fallible code: `Result<T, E>`, its `?`, and inversion of a chain that succeeds.
use mathlib.Core.Path.{◌≡◌, refl}
use mathlib.Core.Logic.{◌⊎◌, inl, inr}
use mathlib.Core.Option.{Option, none, some}

pub data Result {ℓ κ} (Error : Type ℓ) (Value : Type κ) : Type (ℓ ⊔ κ) where
  ok : Value → Result Error Value
  err : Error → Result Error Value

infixl 5 ◌>>=◌ ◌>>◌
-- `let x = first?; rest(x)`
abbrev pub ◌>>=◌ {ℓ κ μ} :
    {Error : Type ℓ} {X : Type κ} {Y : Type μ}
    → Result Error X
    → (X → Result Error Y)
    → Result Error Y
◌>>=◌ (ok x) rest = rest x
◌>>=◌ (err error) rest = err error

abbrev pub ◌>>◌ {ℓ κ} :
    {Error : Type ℓ} {Y : Type κ} → Result Error (Unit {0}) → Result Error Y → Result Error Y
first >> second = first >>= λ done. second

-- `map_err`
abbrev pub map_err {ℓ κ μ} :
    {E : Type ℓ} {F : Type κ} {A : Type μ} → (E → F) → Result E A → Result F A
map_err f (ok a) = ok a
map_err f (err e) = err (f e)

-- `ok_or`
abbrev pub ok_or {ℓ κ} : {E : Type ℓ} {A : Type κ} → Option A → E → Result E A
ok_or (some a) e = ok a
ok_or none e = err e

-- `ok()`
abbrev pub to_option {ℓ κ} : {E : Type ℓ} {A : Type κ} → Result E A → Option A
to_option (ok a) = some a
to_option (err e) = none

-- a chain that succeeds: what its first action gave, and what the rest made of it
pub >>=-eq-ok {ℓ κ μ} :
    {Error : Type ℓ} {X : Type κ} {Y : Type μ} (first : Result Error X) (rest : X → Result Error Y)
    {y : Y}
    → (first >>= rest) ≡ ok y
    → (x : X) × (first ≡ ok x) × (rest x ≡ ok y)
>>=-eq-ok (ok x) rest succeeds = (x, refl, succeeds)
>>=-eq-ok (err error) rest succeeds = cc

pub Result-cases {ℓ κ} :
    {E : Type ℓ} {A : Type κ} (r : Result E A) → ((a : A) × (r ≡ ok a)) ⊎ ((e : E) × (r ≡ err e))
Result-cases (ok a) = inl (a, refl)
Result-cases (err e) = inr (e, refl)

pub ok_injective {ℓ κ} :
    {E : Type ℓ} {A : Type κ} {a b : A} → ◌≡◌ {A = Result E A} (ok a) (ok b) → a ≡ b
ok_injective h = cc

pub map_err-eq-ok {ℓ κ μ} :
    {E : Type ℓ} {F : Type κ} {A : Type μ} (f : E → F) (r : Result E A) {a : A}
    → map_err f r ≡ ok a
    → r ≡ ok a
map_err-eq-ok f (ok a) h = cc
map_err-eq-ok f (err e) h = cc

pub ok_or-eq-ok {ℓ κ} :
    {E : Type ℓ} {A : Type κ} (o : Option A) (e : E) {a : A} → ok_or o e ≡ ok a → o ≡ some a
ok_or-eq-ok none e h = cc
ok_or-eq-ok (some a) e h = cc
