-- ===== src/Stream/Defs.antt =====
-- The state of `StreamAssembler`, its events, and `emit_event`.
use codex_mimo_adapter.Base.{
  ℕ, ◌+◌, String, Bool, false, not, Option, none, some, List, [], ◌∷◌, ◌++◌, is_nil, if◌then◌else◌,
  ltb, num_eq,
}
use codex_mimo_adapter.Base.Int.{ℤ}
use codex_mimo_adapter.Base.Result.{Result, ok}
use codex_mimo_adapter.Json.{
  Value, Map, null, string, number, pos_int, object, empty, obj, arr, insert, fields,
}
use codex_mimo_adapter.Host.{Host}
use codex_mimo_adapter.State.{StoredResponse}
use codex_mimo_adapter.Tools.{ToolContext}
use codex_mimo_adapter.Stream.Exec.{Exec}

pub record StreamingToolCall : Type 0 where
  pub output_index : Option ℕ
  pub item_id : String
  pub call_id : String
  pub name : String
  pub arguments : String
  pub added : Bool
  pub done : Bool

pub data ThinkBlockState : Type 0 where
  detecting in_think done : ThinkBlockState

-- The events, one constructor for each shape of payload that the source emits.
pub data Event : Type 0 where
  created in_progress completed incomplete failed : Map → Event
  item_added item_done : ℕ → Value → Event
  summary_part_added : ℕ → Event
  reasoning_delta : Option ℕ → String → Event
  reasoning_text_done reasoning_part_done : ℕ → String → Event
  text_part_added : ℕ → Event
  text_delta : Option ℕ → String → Event
  text_done text_part_done : ℕ → String → Event
  arguments_delta arguments_done : ℕ → String → String → String → Event
  custom_input_delta custom_input_done : ℕ → String → String → Event

-- What the callback `emit` has been handed: the sequence number and the event.
pub record Sent : Type 0 where
  pub sequence_number : ℕ
  pub event : Event

-- The fields of the assembler that `new` sets and nothing changes, and its two callbacks. The
-- callback `emit` may answer by all that it has been handed before.
pub record Setup : Type 0 where
  pub host : Host
  pub body : Value
  pub model_alias : String
  pub model_upstream : String
  pub base_messages : List Value
  pub tool_context : ToolContext
  pub state_put : StoredResponse → Result String (Unit {0})
  pub emit : List Sent → Sent → Result String (Unit {0})
  pub response_id : String
  pub created_at : ℤ
  pub message_item_id : String
  pub reasoning_item_id : String

-- The fields that change, the events handed to `emit`, and the responses handed to `state_put`.
pub record Assembler : Type 0 where
  pub content : String
  pub reasoning : String
  pub tool_calls : List (ℕ × StreamingToolCall)
  pub usage : Value
  pub finish_reason : Option String
  pub sequence : ℕ
  pub next_output_index : ℕ
  pub text_output_index : Option ℕ
  pub reasoning_output_index : Option ℕ
  pub text_done : Bool
  pub reasoning_done : Bool
  pub terminal_emitted : Bool
  pub think_state : ThinkBlockState
  pub think_buffer : String
  pub drawn : ℕ
  pub sent : List Sent
  pub stored : List StoredResponse

-- `buffer_text_until_tool_decision`
abbrev pub buffers_text : Setup → Bool
buffers_text setup = not (is_nil setup.tool_context.chat_tools)

-- `StreamAssembler::new`
abbrev pub new : Assembler
new = record {
  content = "";
  reasoning = "";
  tool_calls = [];
  usage = object empty;
  finish_reason = none;
  sequence = 0;
  next_output_index = 0;
  text_output_index = none;
  reasoning_output_index = none;
  text_done = false;
  reasoning_done = false;
  terminal_emitted = false;
  think_state = detecting;
  think_buffer = "";
  drawn = 0;
  sent = [];
  stored = [];
}

-- `BTreeMap::get` and `insert`: entries in ascending order of their keys
unfoldable pub get_call : ℕ → List (ℕ × StreamingToolCall) → Option StreamingToolCall
get_call k [] = none
get_call k ((j, c) ∷ m) = if num_eq j k then some c else get_call k m

unfoldable pub set_call :
    ℕ → StreamingToolCall → List (ℕ × StreamingToolCall) → List (ℕ × StreamingToolCall)
set_call k c [] = (k, c) ∷ []
set_call k c ((j, d) ∷ m) =
    if ltb k j
    then (k, c) ∷ (j, d) ∷ m
    else if num_eq j k
    then (k, c) ∷ m
    else (j, d) ∷ set_call k c m

abbrev index_value : Option ℕ → Value
index_value none = null
index_value (some n) = number (pos_int n)

abbrev num : ℕ → Value
num n = number (pos_int n)

abbrev summary_text_part : String → Value
summary_text_part text = obj (("type", string "summary_text") ∷ ("text", string text) ∷ [])

abbrev output_text_part : String → Value
output_text_part text =
    obj (("type", string "output_text") ∷ ("text", string text) ∷ ("annotations", arr []) ∷ [])

-- The name of an event, which is also its field `type`.
unfoldable pub event_name : Event → String
event_name (created r) = "response.created"
event_name (in_progress r) = "response.in_progress"
event_name (completed r) = "response.completed"
event_name (incomplete r) = "response.incomplete"
event_name (failed r) = "response.failed"
event_name (item_added i v) = "response.output_item.added"
event_name (item_done i v) = "response.output_item.done"
event_name (summary_part_added i) = "response.reasoning_summary_part.added"
event_name (reasoning_delta i t) = "response.reasoning_summary_text.delta"
event_name (reasoning_text_done i t) = "response.reasoning_summary_text.done"
event_name (reasoning_part_done i t) = "response.reasoning_summary_part.done"
event_name (text_part_added i) = "response.content_part.added"
event_name (text_delta i t) = "response.output_text.delta"
event_name (text_done i t) = "response.output_text.done"
event_name (text_part_done i t) = "response.content_part.done"
event_name (arguments_delta i id c t) = "response.function_call_arguments.delta"
event_name (arguments_done i id c t) = "response.function_call_arguments.done"
event_name (custom_input_delta i id t) = "response.custom_tool_call_input.delta"
event_name (custom_input_done i id t) = "response.custom_tool_call_input.done"

module _ (setup : Setup) where
  abbrev reasoning_fields : List (String × Value)
  reasoning_fields = ("item_id", string setup.reasoning_item_id) ∷ ("summary_index", num 0) ∷ []

  abbrev text_fields : List (String × Value)
  text_fields = ("content_index", num 0) ∷ ("item_id", string setup.message_item_id) ∷ []

  -- the fields of the payload besides `type`
  unfoldable pub event_fields : Event → List (String × Value)
  unfolding fields
  event_fields (created r) = ("response", object r) ∷ []
  event_fields (in_progress r) = ("response", object r) ∷ []
  event_fields (completed r) = ("response", object r) ∷ []
  event_fields (incomplete r) = ("response", object r) ∷ []
  event_fields (failed r) = ("response", object r) ∷ []
  event_fields (item_added i v) = ("output_index", num i) ∷ ("item", v) ∷ []
  event_fields (item_done i v) = ("output_index", num i) ∷ ("item", v) ∷ []
  event_fields (summary_part_added i) =
      ("output_index", num i) ∷ ("part", summary_text_part "") ∷ reasoning_fields
  event_fields (reasoning_delta i t) =
      ("output_index", index_value i) ∷ ("delta", string t) ∷ reasoning_fields
  event_fields (reasoning_text_done i t) =
      ("output_index", num i) ∷ ("text", string t) ∷ reasoning_fields
  event_fields (reasoning_part_done i t) =
      ("output_index", num i) ∷ ("part", summary_text_part t) ∷ reasoning_fields
  event_fields (text_part_added i) =
      ("output_index", num i) ∷ ("part", output_text_part "") ∷ text_fields
  event_fields (text_delta i t) =
      ("output_index", index_value i) ∷ ("delta", string t) ∷ text_fields
  event_fields (text_done i t) = ("output_index", num i) ∷ ("text", string t) ∷ text_fields
  event_fields (text_part_done i t) =
      ("output_index", num i) ∷ ("part", output_text_part t) ∷ text_fields
  event_fields (arguments_delta i id c t) =
      ("output_index", num i)
      ∷ ("item_id", string id)
      ∷ ("call_id", string c)
      ∷ ("delta", string t)
      ∷ []
  event_fields (arguments_done i id c t) =
      ("output_index", num i)
      ∷ ("item_id", string id)
      ∷ ("call_id", string c)
      ∷ ("arguments", string t)
      ∷ []
  event_fields (custom_input_delta i id t) =
      ("output_index", num i) ∷ ("item_id", string id) ∷ ("delta", string t) ∷ []
  event_fields (custom_input_done i id t) =
      ("output_index", num i) ∷ ("item_id", string id) ∷ ("input", string t) ∷ []

  -- the payload that `emit` is handed
  unfoldable pub payload : Sent → Map
  unfolding event_fields event_name insert fields
  payload sent = insert "sequence_number" (num sent.sequence_number) (
      insert "response_id" (string setup.response_id)
        (fields (("type", string (event_name sent.event)) ∷ event_fields sent.event)))

  -- the items of the events that announce the reasoning and the message
  unfoldable pub reasoning_skeleton : Value
  unfolding fields
  reasoning_skeleton = obj (
      ("id", string setup.reasoning_item_id)
      ∷ ("type", string "reasoning")
      ∷ ("status", string "in_progress")
      ∷ ("summary", arr [])
      ∷ [])

  unfoldable pub message_skeleton : Value
  unfolding fields
  message_skeleton = obj (
      ("type", string "message")
      ∷ ("id", string setup.message_item_id)
      ∷ ("status", string "in_progress")
      ∷ ("role", string "assistant")
      ∷ ("content", arr [])
      ∷ [])

  -- `emit_event`; the count, of 64 bits in the source, is not wrapped here
  unfoldable pub emit_event : Event → Exec Assembler (Unit {0})
  emit_event event s =
      let sent : Sent = record { sequence_number = s.sequence + 1; event = event } in
      (setup.emit s.sent sent, record s { sequence = s.sequence + 1; sent = s.sent ++ sent ∷ [] })

  -- `allocate_output_index`
  unfoldable pub allocate_output_index : Exec Assembler ℕ
  allocate_output_index s =
      (ok s.next_output_index, record s { next_output_index = s.next_output_index + 1 })
