-- ===== src/Request/Sent.antt =====
-- The messages of a request to the upstream model.
use codex_mimo_adapter.Base.{
  ℕ, String, ◌≡◌, refl, ◌∙◌, false, Option, none, some, Bool, true, is_nil, List, [], ◌∷◌, ◌==◌,
  if◌then◌else◌, Bool-cases, inl, inr,
}
use mathlib.Core.Option
use mathlib.Core.Path.{subst}
use codex_mimo_adapter.Base.Result.{ok, >>=-eq-ok}
use codex_mimo_adapter.Json.{
  Value, Map, empty, entry, get, lookup, insert, lookup-insert, arr, unwrap_or, as_object, as_bool,
  and_then, fields, string, bool,
}
use codex_mimo_adapter.Host.{Host}
use codex_mimo_adapter.State.{StoredResponse}
use codex_mimo_adapter.History.{validate_chat_tool_history}
use codex_mimo_adapter.History.Messages.{ValidFrom, validate_chat_tool_history_iff}
use codex_mimo_adapter.Tools.{ToolContext, build_with_input}
use codex_mimo_adapter.Request.Defs.{as_history_error}
use codex_mimo_adapter.Request.Items.{extract_request_with_context}
use codex_mimo_adapter.Request.Repair.{normalize_upstream_roles}
use codex_mimo_adapter.Request.Payload.{
  assembled_messages, or_empty_message, build_chat_payload, put_some, convert_tool_choice,
  copy_parameters, passed_on, with_tools, with_stream_usage, overlay,
}
use codex_mimo_adapter.Request.Accepted.{as_history_error_iff}
use codex_mimo_adapter.Request.Roles.{Headed, normalize_upstream_roles-Headed, ok-injective}

-- A member that is put under another name leaves the member `k`.
lookup-put_some :
    (k key : String) (value : Option Value) (m : Map)
    → (key == k) ≡ false
    → lookup k (put_some key value m) ≡ lookup k m
lookup-put_some k key none m other = refl
lookup-put_some k key (some v) m other = lookup-insert key k v m ∙ rw other refl

-- The parameters go to members other than `k`.
abbrev Elsewhere : String → List (String × String) → Type 0
Elsewhere k [] = Unit
Elsewhere k ((source, target) ∷ pairs) = ((target == k) ≡ false) × Elsewhere k pairs

lookup-copy_parameters :
    (k : String) (pairs : List (String × String)) (body : Value) (m : Map)
    → Elsewhere k pairs
    → lookup k (copy_parameters pairs body m) ≡ lookup k m
unfolding copy_parameters
lookup-copy_parameters k [] body m h = refl
lookup-copy_parameters k ((source, target) ∷ pairs) body m (other, h) =
    lookup-copy_parameters k pairs body (put_some target (get source body) m) h
    ∙ lookup-put_some k target (get source body) m other

passed_on-Elsewhere : Elsewhere "messages" passed_on
passed_on-Elsewhere = (
  refl,
  (
    refl,
    (
      refl,
      (
        refl,
        (
          refl,
          (
            refl,
            (
              refl,
              (
                refl,
                (refl, (refl, (refl, (refl, (refl, (refl, (refl, (refl, (refl, (refl, tt)))))))))),
              ),
            ),
          ),
        ),
      ),
    ),
  ),
)

lookup-if :
    (k : String) (b : Bool) (x y : Map) {found : Option Value}
    → lookup k x ≡ found
    → lookup k y ≡ found
    → lookup k (if b then x else y) ≡ found
lookup-if k true x y h h' = h
lookup-if k false x y h h' = h'

lookup-with_tools :
    (host : Host) (body : Value) (context : ToolContext) (m : Map)
    → lookup "messages" (with_tools host body context m) ≡ lookup "messages" m
unfolding with_tools
lookup-with_tools host body context m =
    let tools = insert "tools" (arr context.chat_tools) m in
    let choice = convert_tool_choice host (get "tool_choice" body) context in
    let chosen = put_some "tool_choice" choice tools in
    let parallel = Option.map bool (and_then (get "parallel_tool_calls" body) as_bool) in
    lookup-if "messages" (is_nil context.chat_tools) m
      (put_some "parallel_tool_calls" parallel chosen) refl
      (lookup-put_some "messages" "parallel_tool_calls" parallel chosen refl
        ∙ lookup-put_some "messages" "tool_choice" choice tools refl
        ∙ lookup-put_some "messages" "tools" (some (arr context.chat_tools)) m refl)

lookup-with_stream_usage : (m : Map) → lookup "messages" (with_stream_usage m) ≡ lookup "messages" m
unfolding with_stream_usage
lookup-with_stream_usage m =
    lookup-if "messages" (unwrap_or false (and_then (lookup "stream" m) as_bool)) _ m
      (lookup-put_some "messages" "stream_options" (some _) m refl) refl

lookup-overlay :
    (k : String) (m payload : Map)
    → lookup k m ≡ none
    → lookup k (overlay m payload) ≡ lookup k payload
unfolding lookup
lookup-overlay k empty payload h = refl
lookup-overlay k (entry j v m) payload h = elim (Bool-cases (j == k)) [
  | inl same ↦ absurd (cc (rw same at h))
  | inr other ↦
      lookup-overlay k m (insert j v payload) (rw other at h)
      ∙ lookup-put_some k j (some v) payload other
]

-- What a payload has, with what is built on it.
base_payload-messages :
    (model_upstream : String) (messages : List Value) (stream : Value)
    → lookup "messages" (
        fields
          (("model", string model_upstream) ∷ ("messages", arr messages) ∷ ("stream", stream) ∷ []))
      ≡ some (arr messages)
unfolding fields lookup
base_payload-messages model_upstream messages stream = refl

-- a payload, with the messages beside it
abbrev Sends : Value × List Value × ToolContext × ℕ → Type 0
Sends (payload, messages, context, drawn) =
    (get "messages" payload ≡ some (arr messages)) × ValidFrom [] [] messages × Headed messages

-- Whatever the request and the stored response, where the reasoning parameter sets no messages: the
-- messages of the payload that `build_chat_payload` returns are those that it returns beside it.
-- They are a valid tool history, and are user, assistant and tool messages behind at most one system
-- message, which stands first.
pub build_chat_payload-messages :
    (host : Host) (body : Value) (model_upstream : String) (previous : Option StoredResponse)
    (reasoning_parameter : Value) (drawn : ℕ) {payload : Value} {messages : List Value}
    {context : ToolContext} {drawn' : ℕ}
    → lookup "messages" (unwrap_or empty (as_object reasoning_parameter)) ≡ none
    → build_chat_payload host body model_upstream previous reasoning_parameter drawn
      ≡ ok (payload, messages, context, drawn')
    → (get "messages" payload ≡ some (arr messages)) × ValidFrom [] [] messages × Headed messages
unfolding build_chat_payload get
build_chat_payload-messages host body model_upstream previous reasoning_parameter drawn plain h =
    let context = build_with_input host.serde (get "tools" body) (get "input" body) in
    let ((incoming, outputs, d1), e1, h1) =
      >>=-eq-ok (extract_request_with_context host context body drawn) _ h in
    let ((assembled, d2), e2, h2) =
      >>=-eq-ok (assembled_messages host body context previous incoming outputs d1) _ h1 in
    let (messages, roles, h3) =
      >>=-eq-ok (normalize_upstream_roles host.serde (or_empty_message assembled)) _ h2 in
    let (u, valid, h4) = >>=-eq-ok (as_history_error (validate_chat_tool_history messages)) _ h3 in
    let base = fields (
      ("model", string model_upstream)
      ∷ ("messages", arr messages)
      ∷ ("stream", bool (unwrap_or false (and_then (get "stream" body) as_bool)))
      ∷ []) in
    let with_all = copy_parameters passed_on body (with_tools host body context base) in
    subst Sends (ok-injective h4) (
      lookup-overlay "messages" (unwrap_or empty (as_object reasoning_parameter))
            (with_stream_usage with_all) plain
          ∙ lookup-with_stream_usage with_all
          ∙ lookup-copy_parameters "messages" passed_on body (with_tools host body context base)
              passed_on-Elsewhere
          ∙ lookup-with_tools host body context base
          ∙ base_payload-messages model_upstream messages
              (bool (unwrap_or false (and_then (get "stream" body) as_bool))),
      (validate_chat_tool_history_iff messages).0 ((as_history_error_iff _).0 valid),
      normalize_upstream_roles-Headed host.serde (or_empty_message assembled) roles,
    )
