-- ===== src/Stream/Replay.antt =====
-- The calls that `finalize` collects: those that are replayed carry the pending ids.
use codex_mimo_adapter.Base.{
  ℕ, String, ◌≡◌, refl, ap, ◌∙◌, arith, Bool, true, false, Option, none, some, List, [], ◌∷◌, ◌++◌,
  filter_map,
}
use mathlib.Core.Path.{subst}
use text.Mathlib.TextLemmas.{cons-append}
use codex_mimo_adapter.Base.Decimal.{decimal}
use codex_mimo_adapter.Base.Str.{is_empty, non_empty, concat}
use codex_mimo_adapter.Base.Result.{Result, ok, err}
use codex_mimo_adapter.Json.{Value, unwrap_or, get, lookup, insert, fields}
use codex_mimo_adapter.History.{call_id_of_call}
use codex_mimo_adapter.Request.Defs.{tool_call}
use codex_mimo_adapter.Stream.Exec.{Exec, pure, either, with_state, continue, ◌>>=◌}
use codex_mimo_adapter.Stream.Defs.{Setup, Assembler, StreamingToolCall, get_call}
use codex_mimo_adapter.Stream.Finalize.{Collected, finish_call, finalize_entry, finalize_calls}

-- What an action returns, where it returns.
pub record Gives {S A : Type 0} (Q : A → Type 0) (action : Exec S A) : Type 0 where
  pub result : (state : S) (value : A) → (action state).0 ≡ ok value → Q value

ok-injective : {A : Type 0} {a b : A} → Path (Result String A) (ok a) (ok b) → a ≡ b
ok-injective h = ground arith

module _ {S A : Type 0} {Q : A → Type 0} where
  Gives-pure : (a : A) → Q a → Gives {S = S} Q (pure a)
  unfolding pure
  Gives-pure a q = record { result = λ s b h. subst Q (ok-injective h) q }

  Gives-either : (b : Bool) (m n : Exec S A) → Gives Q m → Gives Q n → Gives Q (either b m n)
  Gives-either true m n k l = k
  Gives-either false m n k l = l

  Gives-with_state : (f : S → Exec S A) → ((s : S) → Gives Q (f s)) → Gives Q (with_state f)
  unfolding with_state
  Gives-with_state f k = record { result = λ s a h. (k s).result s a h }

module _ {S A B : Type 0} {Q : B → Type 0} where
  Gives-continue :
      (r : Result String A) (f : A → Exec S B) (s : S)
      → ((a : A) → r ≡ ok a → Gives Q (f a))
      → (b : B) → (continue r f s).0 ≡ ok b
      → Q b
  Gives-continue (ok a) f s k b h = (k a refl).result s b h
  Gives-continue (err e) f s k b h = absurd (cc h)

  -- the rest of a block may use what its first action returned
  Gives-bind :
      {R : A → Type 0} (m : Exec S A) (f : A → Exec S B)
      → Gives R m
      → ((a : A) → R a → Gives Q (f a))
      → Gives Q (m >>= f)
  unfolding ◌>>=◌
  Gives-bind m f first k = record {
    result = λ s b h. Gives-continue (m s).0 f (m s).1 (λ a e. k a (first.result s a e)) b h;
  }

  -- whatever the first action returned
  Gives-then : (m : Exec S A) (f : A → Exec S B) → ((a : A) → Gives Q (f a)) → Gives Q (m >>= f)
  Gives-then m f k =
      Gives-bind {R = λ a. Unit {0}} m f (record { result = λ s a h. tt }) (λ a _. k a)

abbrev pub IsReplayed : Collected → Type 0
IsReplayed collected = filter_map call_id_of_call collected.replay_calls ≡ collected.pending

filter_map-append :
    (calls : List Value) (call : Value) {id : String}
    → call_id_of_call call ≡ some id
    → filter_map call_id_of_call (calls ++ call ∷ []) ≡ filter_map call_id_of_call calls ++ id ∷ []
filter_map-append [] call e = rw (e, filter_map) refl
filter_map-append (c ∷ calls) call e = ground (arith, filter_map-append calls call e)

call_id_of_call-tool_call :
    (id name arguments : String)
    → is_empty id ≡ false
    → call_id_of_call (tool_call id name arguments) ≡ some id
unfolding call_id_of_call tool_call get lookup insert fields
call_id_of_call-tool_call String.[] name arguments h = cc
call_id_of_call-tool_call (String.◌∷◌ c s) name arguments h = refl

-- the id of a call that came without one
named_call :
    (given : String) (key : ℕ)
    → is_empty (unwrap_or (concat ("call_" ∷ decimal key ∷ [])) (non_empty given)) ≡ false
named_call String.[] key = ap is_empty (cons-append "c" "all_" (decimal key))
named_call (String.◌∷◌ c s) key = refl

added-IsReplayed :
    (collected : Collected) (output : List Value) (id name arguments : String)
    → is_empty id ≡ false
    → IsReplayed collected
    → IsReplayed (record {
      output = output;
      replay_calls = collected.replay_calls ++ tool_call id name arguments ∷ [];
      pending = collected.pending ++ id ∷ [];
    })
added-IsReplayed collected output id name arguments named h =
    filter_map-append collected.replay_calls (tool_call id name arguments)
      (call_id_of_call-tool_call id name arguments named)
    ∙ ap (λ ids. ids ++ id ∷ []) h

ruleset gives_rules = (Gives-pure, Gives-either, Gives-with_state, Gives-then)

module _ (setup : Setup) where
  finish_call-IsReplayed :
      (key : ℕ) (call : StreamingToolCall) (collected : Collected)
      → IsReplayed collected
      → Gives IsReplayed (finish_call setup key call collected)
  unfolding finish_call
  finish_call-IsReplayed key call collected h =
      search (gives_rules, added-IsReplayed, named_call) depth 8

  finalize_entry-IsReplayed :
      (key : ℕ) (entry : Option StreamingToolCall) (collected : Collected)
      → IsReplayed collected
      → Gives IsReplayed (finalize_entry setup key entry collected)
  finalize_entry-IsReplayed key none collected h = Gives-pure collected h
  finalize_entry-IsReplayed key (some call) collected h =
      search (gives_rules, finish_call-IsReplayed) depth 8

  finalize_calls-Gives :
      (keys : List ℕ) (collected : Collected)
      → IsReplayed collected
      → Gives IsReplayed (finalize_calls setup keys collected)
  unfolding finalize_calls
  finalize_calls-Gives [] collected h = Gives-pure collected h
  finalize_calls-Gives (key ∷ keys) collected h =
      Gives-bind {R = IsReplayed}
        (with_state (λ s. finalize_entry setup key (get_call key s.tool_calls) collected))
        (finalize_calls setup keys)
        (Gives-with_state _
          λ s. finalize_entry-IsReplayed key (get_call key s.tool_calls) collected h)
        λ collected' h'. finalize_calls-Gives keys collected' h'

  -- Where `finalize`'s loop over the calls returns, from nothing collected: the ids read from the
  -- calls that are to be replayed, as a history check reads them, are the pending ids in order.
  pub finalize_calls-IsReplayed :
      (keys : List ℕ) (output : List Value) (s : Assembler) {collected : Collected}
      → (finalize_calls setup keys
          (record { output = output; replay_calls = []; pending = [] })
          s).0
        ≡ ok collected
      → IsReplayed collected
  finalize_calls-IsReplayed keys output s {collected} h =
      (finalize_calls-Gives keys _ refl).result s collected h
