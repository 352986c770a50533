-- ===== src/Base/Lists.antt =====
-- Lists measured by native numbers, predicates by recursion, and sets of texts kept as lists.
use Prim.Native.Nat.{ℕ, zero, suc, ◌+◌, ◌≤◌}
use Prim.Native.String.{String}
use mathlib.Core.Path.{◌≡◌, refl, sym, subst}
use mathlib.Core.Bool.{Bool, true, false, ◌&&◌, ◌||◌}
use mathlib.Core.Option.{Option, none, some}
use mathlib.Core.List.{List, [], ◌∷◌, ◌++◌}
use native.Mathlib.Omega.{arith}
use mathlib.Core.Logic.{◌↔◌, ◌⊎◌, inl, inr}
use text.Mathlib.Text.{◌==◌}
use text.Mathlib.TextEquality.{eq_iff}

module _ {ℓ} {A : Type ℓ} where
  abbrev pub length : List A → ℕ
  length [] = 0
  length (x ∷ xs) = suc (length xs)

  abbrev pub drop : ℕ → List A → List A
  drop zero xs = xs
  drop (suc n) [] = []
  drop (suc n) (x ∷ xs) = drop n xs

  abbrev pub is_nil : List A → Bool
  is_nil [] = true
  is_nil (x ∷ xs) = false

  pub length-append : (xs ys : List A) → length (xs ++ ys) ≡ length xs + length ys
  length-append [] ys = omega arith
  length-append (x ∷ xs) ys = omega (arith, length-append xs ys)

  abbrev pub filter_map {κ} : {B : Type κ} → (A → Option B) → List A → List B
  filter_map f [] = []
  filter_map f (x ∷ xs) = elim (f x) [ none ↦ filter_map f xs | some y ↦ y ∷ filter_map f xs ]

  abbrev pub any : (A → Bool) → List A → Bool
  any p [] = false
  any p (x ∷ xs) = p x || any p xs

  abbrev pub all : (A → Bool) → List A → Bool
  all p [] = true
  all p (x ∷ xs) = p x && all p xs

-- `Iterator::filter` with a Boolean test
module _ {ℓ} {A : Type ℓ} where
  abbrev pub keep_if : (A → Bool) → List A → List A
  keep_if p [] = []
  keep_if p (x ∷ xs) = let rest = keep_if p xs in elim (p x) [ true ↦ x ∷ rest | false ↦ rest ]

abbrev pub All {ℓ κ} : {A : Type ℓ} → (A → Type κ) → List A → Type κ
All P [] = Unit
All P (x ∷ xs) = P x × All P xs

pub All-append {ℓ κ} :
    {A : Type ℓ} (P : A → Type κ) (xs ys : List A) → All P xs → All P ys → All P (xs ++ ys)
All-append P [] ys hx hy = hy
All-append P (x ∷ xs) ys hx hy = (hx.0, All-append P xs ys hx.1 hy)

-- `HashSet::contains` on a set of texts; the order of such a list is never read.
abbrev pub contains : List String → String → Bool
contains [] s = false
contains (x ∷ xs) s = x == s || contains xs s

pub contains-append :
    (xs ys : List String) (s : String) → contains (xs ++ ys) s ≡ (contains xs s || contains ys s)
contains-append [] ys s = refl
contains-append (x ∷ xs) ys s = ground (arith, contains-append xs ys s)

-- All texts of the list differ.
abbrev pub Distinct : List String → Type 0
Distinct [] = Unit
Distinct (x ∷ xs) = (contains xs x ≡ false) × Distinct xs

-- None of the texts is in the set.
abbrev pub Outside : List String → List String → Type 0
Outside seen xs = All (λ x. contains seen x ≡ false) xs

-- All of the texts are in the set.
abbrev pub Inside : List String → List String → Type 0
Inside seen xs = All (λ x. contains seen x ≡ true) xs

-- One more text in the set: the others stay outside if they are not that text.
pub Outside-cons_iff :
    (x : String) (seen xs : List String)
    → Outside (x ∷ seen) xs ↔ ((contains xs x ≡ false) × Outside seen xs)
Outside-cons_iff x seen [] = (λ _. (refl, tt), λ _. tt)
Outside-cons_iff x seen (y ∷ ys) =
    ground (arith, Outside-cons_iff x seen ys, eq_iff x y, eq_iff y x)

pub all-Inside_iff : (seen xs : List String) → (all (contains seen) xs ≡ true) ↔ Inside seen xs
all-Inside_iff seen [] = (λ _. tt, λ _. refl)
all-Inside_iff seen (x ∷ xs) = ground (arith, all-Inside_iff seen xs)

-- the empty type at any level
pub data Nowhere {ℓ} : Type ℓ where

-- The value is an element of the list.
abbrev pub Among {ℓ} : {A : Type ℓ} → A → List A → Type ℓ
Among x [] = Nowhere
Among x (y ∷ ys) = (x ≡ y) ⊎ Among x ys

pub All-at {ℓ κ} : {A : Type ℓ} (P : A → Type κ) {x : A} (xs : List A) → All P xs → Among x xs → P x
All-at P [] h a = elim a [ ]
All-at P {x} (y ∷ ys) h (inl e) = subst P (sym e) h.0
All-at P (y ∷ ys) h (inr a) = All-at P ys h.1 a

-- One occurrence taken out.
abbrev without : String → List String → List String
without x [] = []
without x (y ∷ ys) = elim (y == x) [ true ↦ ys | false ↦ y ∷ without x ys ]

length-without :
    (x : String) (ys : List String) → contains ys x ≡ true → length ys ≡ suc (length (without x ys))
length-without x [] h = cc
length-without x (y ∷ ys) h = ground (arith, length-without x ys)

contains-without :
    (x z : String) (ys : List String)
    → (x == z) ≡ false
    → contains ys z ≡ true
    → contains (without x ys) z ≡ true
contains-without x z [] n h = cc
contains-without x z (y ∷ ys) n h =
    ground (arith, contains-without x z ys, eq_iff y x, eq_iff y z, eq_iff x z)

Inside-without :
    (x : String) (xs ys : List String)
    → contains xs x ≡ false
    → Inside ys xs
    → Inside (without x ys) xs
Inside-without x [] ys n h = tt
Inside-without x (z ∷ zs) ys n h = (
  contains-without x z ys (ground (arith, eq_iff x z, eq_iff z x)) h.0,
  Inside-without x zs ys (ground arith) h.1,
)

-- Different texts of a set are at most as many as the set has.
pub Distinct-length-le : (xs ys : List String) → Distinct xs → Inside ys xs → length xs ≤ length ys
Distinct-length-le [] ys d i = omega arith
Distinct-length-le (x ∷ xs) ys d i = omega (
  arith,
  length-without x ys i.0,
  Distinct-length-le xs (without x ys) d.1 (Inside-without x xs ys d.0 i.1),
)

pub Inside-at :
    (seen xs : List String) (w : String)
    → Inside seen xs
    → contains xs w ≡ true
    → contains seen w ≡ true
Inside-at seen [] w i h = cc
Inside-at seen (x ∷ xs) w i h = ground (arith, eq_iff x w, Inside-at seen xs w i.1)

pub contains-Inside :
    (seen xs : List String)
    → ((w : String) → contains xs w ≡ true → contains seen w ≡ true)
    → Inside seen xs
contains-Inside seen [] f = tt
contains-Inside seen (x ∷ xs) f = (
  f x (ground (arith, eq_iff x x)),
  contains-Inside seen xs (λ w h. f w (ground (arith, eq_iff x w))),
)
