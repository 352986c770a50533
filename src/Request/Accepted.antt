-- ===== src/Request/Accepted.antt =====
-- When the repaired histories of src/conversion/responses_to_chat.rs are accepted.
use codex_mimo_adapter.Base.{
  ◌≡◌, ◌↔◌, refl, ap, arith, false, some, List, [], ◌∷◌, ◌++◌, All, Distinct,
}
use codex_mimo_adapter.Base.Str.{is_empty}
use codex_mimo_adapter.Base.Result.{Result, ok, err, >>=-eq-ok}
use codex_mimo_adapter.Json.{Value, get_str, unwrap_or}
use codex_mimo_adapter.History.{
  HistoryResolutionError, ensure_no_duplicate_call_outputs, validate_chat_tool_history,
}
use codex_mimo_adapter.History.Ids.{ensure_no_duplicate_call_outputs_iff}
use codex_mimo_adapter.History.Messages.{ValidFrom, validate_chat_tool_history_iff}
use codex_mimo_adapter.Request.Defs.{as_history_error, output_call_ids}
use codex_mimo_adapter.Request.Repair.{require_call_ids, repair_history}

-- An output with a `tool_call_id` that is a text and not empty.
abbrev pub HasCallId : Value → Type 0
HasCallId output = is_empty (unwrap_or "" (get_str "tool_call_id" output)) ≡ false

require_call_ids_iff :
    (outputs : List Value) → (require_call_ids outputs ≡ ok tt) ↔ All HasCallId outputs
unfolding require_call_ids
require_call_ids_iff [] = (λ h. tt, λ h. refl)
require_call_ids_iff (o ∷ os) = ground (arith, require_call_ids_iff os)

-- an error is wrapped, and a success passed on
pub as_history_error_iff :
    (r : Result HistoryResolutionError (Unit {0})) → (as_history_error r ≡ ok tt) ↔ (r ≡ ok tt)
as_history_error_iff (ok tt) = (λ h. refl, λ h. refl)
as_history_error_iff (err e) = (λ h. ground arith, λ h. ground arith)

-- `repair_history` with tool outputs succeeds exactly when the outputs' call ids all differ, each
-- output has a `tool_call_id`, and the messages followed by the outputs are a valid tool history;
-- these are then what it returns.
pub repair_history_iff :
    (messages outputs repaired : List Value)
    → (repair_history messages (some outputs) ≡ ok repaired) ↔ (
        Distinct (output_call_ids outputs)
        × All HasCallId outputs
        × ValidFrom [] [] (messages ++ outputs)
        × (messages ++ outputs ≡ repaired))
unfolding repair_history
repair_history_iff messages outputs repaired = (
  λ h.
      let (u, distinct, h1) =
        >>=-eq-ok (as_history_error (ensure_no_duplicate_call_outputs (output_call_ids outputs))) _
          h in
      let (v, named, h2) = >>=-eq-ok (require_call_ids outputs) _ h1 in
      let (w, valid, h3) =
        >>=-eq-ok (as_history_error (validate_chat_tool_history (messages ++ outputs))) _ h2 in
      (
        (ensure_no_duplicate_call_outputs_iff _).0 ((as_history_error_iff _).0 distinct),
        (require_call_ids_iff outputs).0 named,
        (validate_chat_tool_history_iff _).0 ((as_history_error_iff _).0 valid),
        ground (arith, h3),
      ),
  λ (distinct, named, valid, same).
      rw
        (
          (ensure_no_duplicate_call_outputs_iff _).1 distinct,
          (require_call_ids_iff outputs).1 named,
          (validate_chat_tool_history_iff _).1 valid,
        )
        (ap ok same),
)
