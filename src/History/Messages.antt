-- ===== src/History/Messages.antt =====
-- What `validate_chat_tool_history` accepts: every tool message answers a call that an assistant
-- message before it made, and answers it for the first time.
use codex_mimo_adapter.Base.{
  String, ◌≡◌, ◌↔◌, refl, Bool, true, false, none, some, List, [], ◌∷◌, ◌++◌, inl, inr, ◌==◌, arith,
  eq_iff, if◌then◌else◌, contains, Bool-cases,
}
use codex_mimo_adapter.Base.Result.{ok, >>=-eq-ok}
use codex_mimo_adapter.Json.{Value}
use codex_mimo_adapter.History.{
  Seen, role_of, assistant_call_ids, tool_message_call_id, check_message, check_tool_message,
  check_messages, validate_chat_tool_history,
}

abbrev pub is_role : String → Value → Bool
is_role role message = role_of message == role

-- the ids that one message calls, and that it answers
abbrev pub new_calls : Value → List String
new_calls m = if is_role "assistant" m then assistant_call_ids m else []

abbrev pub new_answers : Value → List String
new_answers m =
    if is_role "tool" m
    then elim (tool_message_call_id m) [ none ↦ [] | some call_id ↦ call_id ∷ [] ]
    else []

-- the ids called, or answered, in a list of messages, the latest message's first
abbrev pub calls_before : List Value → List String → List String
calls_before [] calls = calls
calls_before (m ∷ ms) calls = calls_before ms (new_calls m ++ calls)

abbrev pub answers_before : List Value → List String → List String
answers_before [] answers = answers
answers_before (m ∷ ms) answers = answers_before ms (new_answers m ++ answers)

-- A tool message names a call made before it and not yet answered; any other message is free.
abbrev pub Answers : List String → List String → Value → Type 0
Answers calls answers m =
    is_role "tool" m ≡ true
    → (call_id : String) × (tool_message_call_id m ≡ some call_id)
      × (contains calls call_id ≡ true)
      × (contains answers call_id ≡ false)

-- The history is valid when this holds of each message, behind those that precede it.
abbrev pub ValidFrom : List String → List String → List Value → Type 0
ValidFrom calls answers [] = Unit
ValidFrom calls answers (m ∷ ms) =
    Answers calls answers m × ValidFrom (new_calls m ++ calls) (new_answers m ++ answers) ms

abbrev next : Value → Seen → Seen
next m seen = record {
  calls = new_calls m ++ seen.calls;
  consumed = new_answers m ++ seen.consumed;
}

roles_differ : ("assistant" == "tool") ≡ false
roles_differ = refl

role_exclusive : (m : Value) → is_role "assistant" m ≡ true → is_role "tool" m ≡ false
role_exclusive m h = rw ((eq_iff (role_of m) "assistant").0 h)

check_message_ok :
    (m : Value) (seen : Seen)
    → Answers seen.calls seen.consumed m
    → check_message m seen ≡ ok (next m seen)
unfolding check_message check_tool_message
check_message_ok m seen a = elim (Bool-cases (is_role "tool" m)) [
  | inl tool ↦ ground (arith, a tool, role_exclusive m)
  | inr other ↦ ground (arith, role_exclusive m)
]

check_message-Answers :
    (m : Value) (seen seen' : Seen)
    → check_message m seen ≡ ok seen'
    → Answers seen.calls seen.consumed m
unfolding check_message check_tool_message
check_message-Answers m seen seen' h tool = ground (arith, role_exclusive m)

check_messages_ok :
    (ms : List Value) (seen : Seen)
    → ValidFrom seen.calls seen.consumed ms
    → (last : Seen) × (check_messages ms seen ≡ ok last)
unfolding check_messages
check_messages_ok [] seen v = (seen, refl)
check_messages_ok (m ∷ ms) seen v =
    let (last, e) = check_messages_ok ms (next m seen) v.1 in
    (last, rw (check_message_ok m seen v.0) e)

check_messages-ValidFrom :
    (ms : List Value) (seen last : Seen)
    → check_messages ms seen ≡ ok last
    → ValidFrom seen.calls seen.consumed ms
unfolding check_messages
check_messages-ValidFrom [] seen last h = tt
check_messages-ValidFrom (m ∷ ms) seen last h =
    let (seen', e, later) = >>=-eq-ok (check_message m seen) (check_messages ms) h in
    let a = check_message-Answers m seen seen' e in
    (a, check_messages-ValidFrom ms (next m seen) last (rw (check_message_ok m seen a) at h))

-- `validate_chat_tool_history` accepts exactly the histories in which every tool message has a call
-- id that is not empty, that an assistant message before it has called, and that no tool message
-- before it has answered.
pub validate_chat_tool_history_iff :
    (messages : List Value)
    → (validate_chat_tool_history messages ≡ ok tt) ↔ ValidFrom [] [] messages
unfolding validate_chat_tool_history
validate_chat_tool_history_iff messages = (
  λ h.
      let (last, e, _) = >>=-eq-ok (check_messages messages _) _ h in
      check_messages-ValidFrom messages _ last e,
  λ v. let (last, e) = check_messages_ok messages _ v in rw e,
)
