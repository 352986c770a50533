-- ===== src/Stream/Exec.antt =====
-- Methods that change an object and may fail: what was changed before a failure stays changed.
use codex_mimo_adapter.Base.{String, Bool, true, false, List, [], ◌∷◌}
use codex_mimo_adapter.Base.Result.{Result, ok, err}

abbrev pub Exec : Type 0 → Type 0 → Type 0
Exec S A = S → Result String A × S

module _ {S : Type 0} where
  unfoldable pub done : Exec S (Unit {0})
  done s = (ok tt, s)

  unfoldable pub pure : {A : Type 0} → A → Exec S A
  pure a s = (ok a, s)

  unfoldable pub modify : (S → S) → Exec S (Unit {0})
  modify f s = (ok tt, f s)

  -- `if b { m }`
  unfoldable pub when : Bool → Exec S (Unit {0}) → Exec S (Unit {0})
  unfolding done
  when true m = m
  when false m = done

  -- an action chosen by the state
  unfoldable pub with_state : {A : Type 0} → (S → Exec S A) → Exec S A
  with_state f s = f s s

module _ {S A B : Type 0} where
  abbrev pub continue : Result String A → (A → Exec S B) → Exec S B
  continue (ok a) f s = f a s
  continue (err e) f s = (err e, s)

  infixl 10 ◌>>=◌ ◌>>◌
  -- opening this opens the actions above too
  unfoldable pub ◌>>=◌ : Exec S A → (A → Exec S B) → Exec S B
  unfolding done pure modify when with_state
  ◌>>=◌ m f s = let (r, s') = m s in continue r f s'

  abbrev pub ◌>>◌ : Exec S A → Exec S B → Exec S B
  m >> n = m >>= λ _. n

module _ {S : Type 0} where
  -- `for x in xs { f(x)?; }`
  unfoldable pub for_each : {A : Type 0} → (A → Exec S (Unit {0})) → List A → Exec S (Unit {0})
  unfolding ◌>>=◌
  for_each f [] = done
  for_each f (x ∷ xs) = f x >> for_each f xs

  -- `if b { m } else { n }`
  abbrev pub either : {A : Type 0} → Bool → Exec S A → Exec S A → Exec S A
  either true m n = m
  either false m n = n
