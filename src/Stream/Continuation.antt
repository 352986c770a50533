-- ===== src/Stream/Continuation.antt =====
-- A stored response continues: tool outputs for its pending calls are accepted by the request
-- that brings them.
use codex_mimo_adapter.Base.{
  String, ◌≡◌, refl, sym, ap, ◌∙◌, arith, true, false, some, List, [], ◌∷◌, ◌++◌, map, filter_map,
  append_assoc, contains-append, Inside, Outside, Outside-cons_iff, Distinct, All, Option-cases,
  inl, inr,
}
use mathlib.Core.Path.{subst}
use codex_mimo_adapter.Base.Str.{is_empty, non_empty}
use codex_mimo_adapter.Base.Result.{ok}
use codex_mimo_adapter.Json.{Value, get, get_str, lookup, insert, fields, to_list-of_list}
use codex_mimo_adapter.History.{
  role_of, assistant_call_ids, call_id_of_call, tool_message_call_id, validate_chat_tool_history,
  validate_requested_call_ids,
}
use codex_mimo_adapter.History.Ids.{validate_requested_call_ids_iff}
use codex_mimo_adapter.History.Messages.{
  ValidFrom, is_role, new_calls, new_answers, calls_before, answers_before,
  validate_chat_tool_history_iff,
}
use codex_mimo_adapter.Request.Defs.{tool_output_message, output_call_id, output_call_ids}
use codex_mimo_adapter.Request.Repair.{repair_history}
use codex_mimo_adapter.Request.Accepted.{HasCallId, repair_history_iff}
use codex_mimo_adapter.Stream.Defs.{Setup, Assembler}
use codex_mimo_adapter.Stream.Finalize.{Collected, stored_assistant, stored_response}

ValidFrom-append :
    (calls answers : List String) (xs ys : List Value)
    → ValidFrom calls answers xs
    → ValidFrom (calls_before xs calls) (answers_before xs answers) ys
    → ValidFrom calls answers (xs ++ ys)
ValidFrom-append calls answers [] ys h k = k
ValidFrom-append calls answers (x ∷ xs) ys h k =
    (h.0, ValidFrom-append (new_calls x ++ calls) (new_answers x ++ answers) xs ys h.1 k)

-- the outputs, each a call id and a text
abbrev pub output_messages : List (String × String) → List Value
output_messages outputs = map (λ (id, text). tool_output_message id text) outputs

abbrev pub output_ids : List (String × String) → List String
output_ids outputs = map (λ (id, text). id) outputs

output_call_ids-output_messages :
    (outputs : List (String × String))
    → output_call_ids (output_messages outputs) ≡ output_ids outputs
unfolding output_call_ids output_call_id tool_output_message get lookup insert fields
output_call_ids-output_messages [] = refl
output_call_ids-output_messages ((id, text) ∷ outputs) =
    ap (◌∷◌ id) (output_call_ids-output_messages outputs)

tool_message_call_id-output :
    (id text : String)
    → is_empty id ≡ false
    → tool_message_call_id (tool_output_message id text) ≡ some id
unfolding tool_message_call_id tool_output_message get lookup insert fields
tool_message_call_id-output String.[] text h = cc
tool_message_call_id-output (String.◌∷◌ c s) text h = refl

is_role-output : (id text : String) → is_role "tool" (tool_output_message id text) ≡ true
unfolding role_of tool_output_message get_str get lookup insert fields
is_role-output id text = refl

is_role-output_assistant :
    (id text : String) → is_role "assistant" (tool_output_message id text) ≡ false
unfolding role_of tool_output_message get_str get lookup insert fields
is_role-output_assistant id text = refl

HasCallId-output_messages :
    (outputs : List (String × String))
    → All (λ id. is_empty id ≡ false) (output_ids outputs)
    → All HasCallId (output_messages outputs)
unfolding tool_output_message get_str get lookup insert fields
HasCallId-output_messages [] h = tt
HasCallId-output_messages ((id, text) ∷ outputs) h = (h.0, HasCallId-output_messages outputs h.1)

new_answers-output :
    (id text : String) → is_empty id ≡ false → new_answers (tool_output_message id text) ≡ id ∷ []
new_answers-output id text h =
    rw (is_role-output id text, tool_message_call_id-output id text h) refl

output_messages-ValidFrom :
    (calls answers : List String) (outputs : List (String × String))
    → All (λ id. is_empty id ≡ false) (output_ids outputs)
    → Inside calls (output_ids outputs)
    → Outside answers (output_ids outputs)
    → Distinct (output_ids outputs)
    → ValidFrom calls answers (output_messages outputs)
output_messages-ValidFrom calls answers [] n i o d = tt
output_messages-ValidFrom calls answers ((id, text) ∷ outputs) n i o d = (
  λ _. (id, tool_message_call_id-output id text n.0, i.0, o.0),
  rw (is_role-output_assistant id text) (
      subst (λ more. ValidFrom calls (more ++ answers) (output_messages outputs))
        (sym (new_answers-output id text n.0))
        (output_messages-ValidFrom calls (id ∷ answers) outputs n.1 i.1
          ((Outside-cons_iff id answers (output_ids outputs)).1 (d.0, o.1)) d.1)),
)

role_of-stored_assistant :
    (setup : Setup) (s : Assembler) (calls : List Value)
    → role_of (stored_assistant setup s calls) ≡ "assistant"
unfolding stored_assistant role_of get_str get lookup insert fields
role_of-stored_assistant setup s [] = elim (Option-cases (non_empty s.reasoning)) [
  | inl e ↦ rw e refl
  | inr (text, e) ↦ rw e refl
]
role_of-stored_assistant setup s (c ∷ calls) = elim (Option-cases (non_empty s.reasoning)) [
  | inl e ↦ rw e refl
  | inr (text, e) ↦ rw e refl
]

assistant_call_ids-stored_assistant :
    (setup : Setup) (s : Assembler) (calls : List Value)
    → assistant_call_ids (stored_assistant setup s calls) ≡ filter_map call_id_of_call calls
unfolding stored_assistant assistant_call_ids get lookup insert fields
assistant_call_ids-stored_assistant setup s [] = elim (Option-cases (non_empty s.reasoning)) [
  | inl e ↦ rw e refl
  | inr (text, e) ↦ rw e refl
]
assistant_call_ids-stored_assistant setup s (c ∷ calls) =
    elim (Option-cases (non_empty s.reasoning)) [
      | inl e ↦ rw e (ap (filter_map call_id_of_call) (to_list-of_list (c ∷ calls)))
      | inr (text, e) ↦ rw e (ap (filter_map call_id_of_call) (to_list-of_list (c ∷ calls)))
    ]

Inside-append : (pending calls xs : List String) → Inside pending xs → Inside (pending ++ calls) xs
Inside-append pending calls [] i = tt
Inside-append pending calls (x ∷ xs) i =
    (ground (arith, contains-append pending calls x, i.0), Inside-append pending calls xs i.1)

-- behind an assistant message, its calls are open and nothing more is answered
assistant-ValidFrom :
    (calls answers ids : List String) (assistant : Value) (rest : List Value)
    → role_of assistant ≡ "assistant"
    → assistant_call_ids assistant ≡ ids
    → ValidFrom (ids ++ calls) answers rest
    → ValidFrom calls answers (assistant ∷ rest)
assistant-ValidFrom calls answers ids assistant rest role called h =
    (rw role (λ e. absurd (cc e)), rw (role, called) h)

-- Outputs for pending calls of a stored response continue it: let the replayed calls of the
-- response carry its pending ids, and the messages before it be a valid history that has not
-- answered the ids of the outputs. If these ids are not empty and `validate_requested_call_ids`
-- accepts them, then `repair_history` accepts the outputs behind the stored messages.
pub repair_history-stored_response :
    (setup : Setup) (s : Assembler) (collected : Collected) (outputs : List (String × String))
    → filter_map call_id_of_call collected.replay_calls ≡ collected.pending
    → validate_chat_tool_history setup.base_messages ≡ ok tt
    → Outside (answers_before setup.base_messages []) (output_ids outputs)
    → All (λ id. is_empty id ≡ false) (output_ids outputs)
    → validate_requested_call_ids (stored_response setup s collected) (output_ids outputs) ≡ ok tt
    → repair_history (stored_response setup s collected).messages (some (output_messages outputs))
      ≡ ok ((stored_response setup s collected).messages ++ output_messages outputs)
unfolding stored_response
repair_history-stored_response setup s collected outputs tied valid new named accepted =
    let base = setup.base_messages in
    let assistant = stored_assistant setup s collected.replay_calls in
    let (distinct, pending) = (validate_requested_call_ids_iff _ (output_ids outputs)).0 accepted in
    let calls = calls_before base [] in
    let answers = answers_before base [] in
    let first : ValidFrom [] [] base = (validate_chat_tool_history_iff base).0 valid in
    let ids : assistant_call_ids assistant ≡ collected.pending =
      assistant_call_ids-stored_assistant setup s collected.replay_calls ∙ tied in
    (repair_history_iff (base ++ assistant ∷ []) (output_messages outputs) _).1 (
      subst Distinct (sym (output_call_ids-output_messages outputs)) distinct,
      HasCallId-output_messages outputs named,
      subst (ValidFrom [] []) (sym (append_assoc base (assistant ∷ []) (output_messages outputs))) (
          ValidFrom-append [] [] base (assistant ∷ output_messages outputs) first (
            assistant-ValidFrom calls answers collected.pending assistant (output_messages outputs)
              (role_of-stored_assistant setup s collected.replay_calls) ids
              (output_messages-ValidFrom (collected.pending ++ calls) answers outputs named
                (Inside-append collected.pending calls (output_ids outputs) pending) new
                distinct))),
      refl,
    )
