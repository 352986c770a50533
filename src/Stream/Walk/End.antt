-- ===== src/Stream/Walk/End.antt =====
-- The walk over `finalize` and `fail`, and over any sequence of the assembler's operations.
use codex_mimo_adapter.Base.{
  String, ◌≡◌, refl, ◌∙◌, sym, Bool, true, false, Bool-cases, List, [], ◌∷◌, ◌++◌, ◌==◌, inl, inr,
}
use codex_mimo_adapter.Base.Str.{is_some}
use codex_mimo_adapter.Base.Result.{Result, ok, err}
use codex_mimo_adapter.Json.{Value, Map}
use codex_mimo_adapter.State.{StoredResponse}
use codex_mimo_adapter.Stream.Exec.{Exec, with_state, either, continue, ◌>>=◌}
use codex_mimo_adapter.Stream.Keeps.{Keeps, keeps_rules}
use codex_mimo_adapter.Stream.Defs.{Setup, Assembler, Event, emit_event}
use codex_mimo_adapter.Stream.Finalize.{
  start, accept, mark_truncated_as_length, put_state, terminal, end_stream, finalize_open, finalize,
  fail,
}
use codex_mimo_adapter.Stream.Walk.{
  SameLog, IsLogInvariant, same_log, is_terminal, item_rules, flush_pending_think_buffer-Keeps,
}
use codex_mimo_adapter.Stream.Walk.Calls.{start-Keeps, accept-Keeps, finalize_calls-Keeps}

-- What a caller asks of an assembler.
pub data Operation : Type 0 where
  starts : Operation
  accepts : Value → Operation
  truncates : Operation
  finalizes : Operation
  fails : String → String → Operation

-- The assembler after an operation, failed or not.
abbrev pub step : Setup → Operation → Assembler → Assembler
step setup starts s = (start setup s).1
step setup (accepts chunk) s = (accept setup chunk s).1
step setup truncates s = mark_truncated_as_length s
step setup finalizes s = (finalize setup s).1
step setup (fails error_type message) s = (fail setup error_type message s).1

-- The assembler after the operations, from the left.
abbrev pub after : Setup → List Operation → Assembler → Assembler
after setup [] s = s
after setup (o ∷ os) s = after setup os (step setup o s)

-- from `Q` to `P`, where a failure on the way has to be left with `P`
record Leads {A : Type 0} (Q P : Assembler → Type 0) (m : Exec Assembler A) : Type 0 where
  goes : (s : Assembler) → Q s → P (m s).1

module _ {Q P : Assembler → Type 0} (weak : (s : Assembler) → Q s → P s) where
  Leads-continue :
      {A B : Type 0} (r : Result String A) (f : A → Exec Assembler B) (s : Assembler)
      → ((a : A) → Leads Q P (f a))
      → Q s
      → P (continue r f s).1
  Leads-continue (ok a) f s k h = (k a).goes s h
  Leads-continue (err e) f s k h = weak s h

  Leads-bind :
      {A B : Type 0} (m : Exec Assembler A) (f : A → Exec Assembler B)
      → Keeps Q m
      → ((a : A) → Leads Q P (f a))
      → Leads Q P (m >>= f)
  unfolding ◌>>=◌
  Leads-bind m f km kf = record {
    goes = λ s h. let (r, s') = m s in Leads-continue r f s' kf (km.at s h);
  }

  Leads-with_state :
      {A : Type 0} (f : Assembler → Exec Assembler A)
      → ((s : Assembler) → Leads Q P (f s))
      → Leads Q P (with_state f)
  unfolding with_state
  Leads-with_state f k = record { goes = λ s h. (k s).goes s h }

-- the invariant of a stream that has not ended
abbrev pub Running : (Assembler → Type 0) → Assembler → Type 0
Running P s = P s × (s.terminal_emitted ≡ false)

pub terminal-is_terminal :
    (setup : Setup) (status : String) (r : Map) → is_terminal (terminal setup status r) ≡ true
unfolding is_terminal
terminal-is_terminal setup status r = elim (Bool-cases (status == "completed")) [
  | inl e ↦ rw e refl
  | inr e ↦ rw e refl
]

pub truncated-log : (s : Assembler) → SameLog s (mark_truncated_as_length s)
unfolding mark_truncated_as_length
truncated-log s = elim (Bool-cases (is_some s.finish_reason)) [
  | inl e ↦ rw e (same_log _ _ refl refl refl)
  | inr e ↦ rw e (same_log _ _ refl refl refl)
]

module _ {setup : Setup} {P : Assembler → Type 0} (inv : IsLogInvariant setup P) where
  pub Running-IsLogInvariant : IsLogInvariant setup (Running P)
  unfolding emit_event
  Running-IsLogInvariant = record {
    event = λ e h. record { at = λ s k. ((inv.event e h).at s k.0, k.1) };
    frame = λ s t same h. (inv.frame s t same h.0, sym same.same_end ∙ h.1);
  }

  pub put_state-Keeps : (item : StoredResponse) → Keeps (Running P) (put_state setup item)
  unfolding put_state
  put_state-Keeps item = record {
    at = λ s h. (
      inv.frame s (record s { stored = s.stored ++ item ∷ [] }) (same_log _ _ refl refl refl) h.0,
      h.1,
    );
  }

  module _
      (ending : (e : Event) (r : Map) (s : Assembler)
        → is_terminal e ≡ true
        → Running P s
        → P (end_stream setup e r s).1) where
    end_stream-Leads :
        (e : Event) (r : Map) → is_terminal e ≡ true → Leads (Running P) P (end_stream setup e r)
    end_stream-Leads e r last = record { goes = λ s h. ending e r s last h }

    weak : (s : Assembler) → Running P s → P s
    weak s h = h.0

    finalize_open-Leads : Leads (Running P) P (finalize_open setup)
    unfolding finalize_open
    finalize_open-Leads =
        search
          (
            Leads-bind weak,
            Leads-with_state weak,
            end_stream-Leads,
            terminal-is_terminal setup,
            put_state-Keeps,
            Running-IsLogInvariant,
            item_rules,
            flush_pending_think_buffer-Keeps,
            finalize_calls-Keeps,
          )
          depth 9

    ends :
        (b : Bool) (m : Exec Assembler Value) (n : Exec Assembler Value) (s : Assembler)
        → b ≡ s.terminal_emitted
        → Keeps P m
        → Leads (Running P) P n
        → P s
        → P (either b m n s).1
    ends true m n s e km kn h = km.at s h
    ends false m n s e km kn h = kn.goes s (h, sym e)

    finalize-Keeps : Keeps P (finalize setup)
    unfolding finalize with_state
    finalize-Keeps = record {
      at = λ s h. ends s.terminal_emitted _ _ s refl (search keeps_rules) finalize_open-Leads h;
    }

    fail-Keeps : (error_type message : String) → Keeps P (fail setup error_type message)
    unfolding fail with_state is_terminal
    fail-Keeps error_type message = record {
      at = λ s h.
          ends s.terminal_emitted _ _ s refl (search keeps_rules) (end_stream-Leads _ _ refl) h;
    }

    step-Keeps : (o : Operation) (s : Assembler) → P s → P (step setup o s)
    step-Keeps starts s h = (start-Keeps inv).at s h
    step-Keeps (accepts chunk) s h = (accept-Keeps inv chunk).at s h
    step-Keeps truncates s h = inv.frame s _ (truncated-log s) h
    step-Keeps finalizes s h = finalize-Keeps.at s h
    step-Keeps (fails error_type message) s h = (fail-Keeps error_type message).at s h

    pub after-Keeps : (os : List Operation) (s : Assembler) → P s → P (after setup os s)
    after-Keeps [] s h = h
    after-Keeps (o ∷ os) s h = after-Keeps os (step setup o s) (step-Keeps o s h)
