-- ===== src/Stream/Keeps.antt =====
-- Invariants of the assembler's actions, failing or not: one rule for each way to build an action.
use codex_mimo_adapter.Base.{String, Bool, true, false, List, [], ◌∷◌}
use codex_mimo_adapter.Base.Result.{Result, ok, err}
use codex_mimo_adapter.Stream.Exec.{
  Exec, done, pure, modify, when, with_state, for_each, either, continue, ◌>>=◌,
}

-- From a state with `P`, the action leaves a state with `P`, also where it fails.
pub record Keeps {S A : Type 0} (P : S → Type 0) (action : Exec S A) : Type 0 where
  pub at : (state : S) → P state → P (action state).1

module _ {S : Type 0} {P : S → Type 0} where
  pub Keeps-done : Keeps P done
  unfolding done
  Keeps-done = record { at = λ state holds. holds }

  pub Keeps-pure : {A : Type 0} (value : A) → Keeps P (pure value)
  unfolding pure
  Keeps-pure value = record { at = λ state holds. holds }

  pub Keeps-modify : (f : S → S) → ((s : S) → P s → P (f s)) → Keeps P (modify f)
  unfolding modify
  Keeps-modify f k = record { at = k }

  pub Keeps-when : (b : Bool) (m : Exec S (Unit {0})) → Keeps P m → Keeps P (when b m)
  unfolding when
  Keeps-when true m k = k
  Keeps-when false m k = Keeps-done

  pub Keeps-either :
      {A : Type 0} (b : Bool) (m n : Exec S A) → Keeps P m → Keeps P n → Keeps P (either b m n)
  Keeps-either true m n k l = k
  Keeps-either false m n k l = l

  pub Keeps-with_state :
      {A : Type 0} (f : S → Exec S A) → ((s : S) → Keeps P (f s)) → Keeps P (with_state f)
  unfolding with_state
  Keeps-with_state f k = record { at = λ s h. (k s).at s h }

  -- the rest of a block, from the result of its first action
  Keeps-continue :
      {A B : Type 0} (r : Result String A) (f : A → Exec S B) (s : S)
      → ((a : A) → Keeps P (f a))
      → P s
      → P (continue r f s).1
  Keeps-continue (ok a) f s k h = (k a).at s h
  Keeps-continue (err e) f s k h = h

  pub Keeps-bind :
      {A B : Type 0} (first : Exec S A) (rest : A → Exec S B)
      → Keeps P first
      → ((value : A) → Keeps P (rest value))
      → Keeps P (first >>= rest)
  unfolding ◌>>=◌
  Keeps-bind first rest kept later = record {
    at = λ state holds.
        let (result, state') = first state in
        Keeps-continue result rest state' later (kept.at state holds);
  }

  pub Keeps-for_each :
      {A : Type 0} (f : A → Exec S (Unit {0})) (xs : List A)
      → ((a : A) → Keeps P (f a))
      → Keeps P (for_each f xs)
  unfolding for_each
  Keeps-for_each f [] k = Keeps-done
  Keeps-for_each f (x ∷ xs) k =
      Keeps-bind (f x) (λ _. for_each f xs) (k x) (λ _. Keeps-for_each f xs k)

pub ruleset keeps_rules =
    (Keeps-done, Keeps-pure, Keeps-when, Keeps-either, Keeps-with_state, Keeps-bind, Keeps-for_each)
