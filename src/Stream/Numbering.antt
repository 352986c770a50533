-- ===== src/Stream/Numbering.antt =====
-- The log of the events over any sequence of the assembler's operations: how they are numbered,
-- and how often the stream ends.
use codex_mimo_adapter.Base.{
  ℕ, ◌+◌, suc, ◌≡◌, refl, sym, ap, ◌∙◌, arith, true, List, [], ◌∷◌, ◌++◌, length, length-append,
  if◌then◌else◌,
}
use mathlib.Core.Path.{subst}
use codex_mimo_adapter.Base.Result.{ok}
use codex_mimo_adapter.Json.{Map, object}
use codex_mimo_adapter.Stream.Exec.{◌>>=◌}
use codex_mimo_adapter.Stream.Keeps.{Keeps, Keeps-bind, Keeps-pure, Keeps-modify}
use codex_mimo_adapter.Stream.Defs.{Setup, Assembler, Sent, Event, emit_event, new}
use codex_mimo_adapter.Stream.Finalize.{end_stream}
use codex_mimo_adapter.Stream.Walk.{IsLogInvariant, is_terminal}
use codex_mimo_adapter.Stream.Walk.End.{Operation, after, after-Keeps, Running}

-- The numbers count up from `n`.
abbrev pub NumberedFrom : ℕ → List Sent → Type 0
NumberedFrom n [] = Unit
NumberedFrom n (x ∷ xs) = (x.sequence_number ≡ n) × NumberedFrom (suc n) xs

-- The events are numbered from 1, and `sequence` is the number of the last one.
pub record Numbered (s : Assembler) : Type 0 where
  pub numbers : NumberedFrom 1 s.sent
  pub counted : length s.sent ≡ s.sequence

-- How many events that end a stream were handed to the callback.
unfoldable pub terminals : List Sent → ℕ
unfolding is_terminal
terminals [] = 0
terminals (x ∷ xs) = let rest = terminals xs in if is_terminal x.event then suc rest else rest

-- The stream has ended as often as it is marked to have.
abbrev pub EndsOnce : Assembler → Type 0
EndsOnce s = terminals s.sent ≡ (if s.terminal_emitted then 1 else 0)

NumberedFrom-concat :
    (n : ℕ) (xs : List Sent) (x : Sent)
    → NumberedFrom n xs
    → x.sequence_number ≡ n + length xs
    → NumberedFrom n (xs ++ x ∷ [])
NumberedFrom-concat n [] x h e = (omega (arith, e), tt)
NumberedFrom-concat n (y ∷ xs) x h e =
    (h.0, NumberedFrom-concat (suc n) xs x h.1 (omega (arith, e)))

terminals-concat :
    (xs : List Sent) (x : Sent)
    → terminals (xs ++ x ∷ []) ≡ terminals xs + (if is_terminal x.event then 1 else 0)
unfolding terminals
terminals-concat [] x = ground arith
terminals-concat (y ∷ xs) x = ground (arith, terminals-concat xs x)

-- the mark of the end leaves the log alone
marked-Numbered : (s : Assembler) → Numbered s → Numbered (record s { terminal_emitted = true })
marked-Numbered s h = record { numbers = h.numbers; counted = h.counted }

module _ (setup : Setup) where
  emit_event-Numbered : (e : Event) → Keeps Numbered (emit_event setup e)
  unfolding emit_event
  emit_event-Numbered e = record {
    at = λ s h.
        let sent : Sent = record { sequence_number = s.sequence + 1; event = e } in
        record {
          numbers = NumberedFrom-concat 1 s.sent sent h.numbers (omega (arith, h.counted));
          counted = omega (arith, length-append s.sent (sent ∷ []), h.counted);
        };
  }

  Numbered-IsLogInvariant : IsLogInvariant setup Numbered
  Numbered-IsLogInvariant = record {
    event = λ e h. emit_event-Numbered e;
    frame = λ s t same h. record {
      numbers = subst (NumberedFrom 1) same.same_sent h.numbers;
      counted = ap length (sym same.same_sent) ∙ h.counted ∙ same.same_sequence;
    };
  }

  end_stream-Numbered : (e : Event) (r : Map) → Keeps Numbered (end_stream setup e r)
  unfolding end_stream
  end_stream-Numbered e r =
      Keeps-bind (emit_event setup e) _ (emit_event-Numbered e)
        λ _. Keeps-bind _ _ (Keeps-modify _ marked-Numbered) λ _. Keeps-pure (object r)

  -- Whatever operations a caller asks of a new assembler, in whatever order and whether or not
  -- they fail: the events that the callback is handed are numbered 1, 2, 3 and so on, and
  -- `sequence` is how many there are.
  pub after-Numbered : (os : List Operation) → Numbered (after setup os new)
  after-Numbered os =
      after-Keeps Numbered-IsLogInvariant (λ e r s last h. (end_stream-Numbered e r).at s h.0) os
        new (record { numbers = tt; counted = refl })

  pub EndsOnce-IsLogInvariant : IsLogInvariant setup EndsOnce
  unfolding emit_event
  EndsOnce-IsLogInvariant = record {
    event = λ e running. record {
      at = λ s h.
          let sent : Sent = record { sequence_number = s.sequence + 1; event = e } in
          terminals-concat s.sent sent ∙ rw running (omega (arith, h));
    };
    frame = λ s t same h. rw (sym same.same_sent, sym same.same_end) h;
  }

  module _ (is_open : (log : List Sent) (x : Sent) → setup.emit log x ≡ ok tt) where
    end_stream-EndsOnce :
        (e : Event) (r : Map) (s : Assembler)
        → is_terminal e ≡ true
        → Running EndsOnce s
        → EndsOnce (end_stream setup e r s).1
    unfolding end_stream ◌>>=◌ emit_event
    end_stream-EndsOnce e r s last (once, running) =
        let none_yet : terminals s.sent ≡ 0 = rw running at once in
        let sent : Sent = record { sequence_number = s.sequence + 1; event = e } in
        rw (is_open s.sent sent) (terminals-concat s.sent sent ∙ rw last (omega (arith, none_yet)))

    -- While the callback takes every event: whatever operations a caller asks of a new assembler,
    -- in whatever order, at most one event that ends the stream is handed to the callback, and
    -- exactly one once the assembler is marked as ended.
    pub after-EndsOnce : (os : List Operation) → EndsOnce (after setup os new)
    unfolding terminals
    after-EndsOnce os = after-Keeps EndsOnce-IsLogInvariant end_stream-EndsOnce os new refl
