-- ===== src/Server/Checked.antt =====
-- What the handlers promise: which requests are forwarded, how a stream is answered, and when the
-- store changes.
use codex_mimo_adapter.Base.{
  ℕ, ◌≤◌, String, ◌≡◌, refl, arith, true, Bool-cases, Option, none, some, List, inl, inr, ltb, Bool,
  false, [], ◌∷◌, ◌++◌, map, All, if◌then◌else◌,
}
use mathlib.Core.Path.{subst}
use mathlib.Core.Option.{some-injective}
use codex_mimo_adapter.Base.Result.{
  map_err-eq-ok, ok_or-eq-ok, Result, ok, err, map_err, ok_or, ◌>>=◌, >>=-eq-ok, ok_injective,
}
use codex_mimo_adapter.Base.Str.{byte_count}
use codex_mimo_adapter.Json.{Value, object, empty, get_str}
use codex_mimo_adapter.Host.{Host}
use codex_mimo_adapter.Project.Ids.{Digests}
use codex_mimo_adapter.Stream.Defs.{Setup}
use codex_mimo_adapter.Request.Payload.{ChatPayload, build_chat_payload}
use codex_mimo_adapter.Request.Defs.{HistoryError, invalid, panicked}
use codex_mimo_adapter.Server.Errors.{is_history_error_message}
use codex_mimo_adapter.Server.Previous.{previous_response}
use codex_mimo_adapter.Upstream.{with_stream}
use codex_mimo_adapter.Server.Frames.{Frame, event, done, is_event, ends_response}
use codex_mimo_adapter.Server.Failed.{lifecycle_event}
use codex_mimo_adapter.Stream.Defs.{Sent}
use codex_mimo_adapter.Stream.Walk.{is_terminal}
use codex_mimo_adapter.Stream.Numbering.{terminals}
use codex_mimo_adapter.Server.Ends.{IsAnswered, stream_task-IsAnswered, fail_started-IsAnswered}
use codex_mimo_adapter.Server.Route.{parse_routed_model, authorize_adapter, project_runtime}
use codex_mimo_adapter.Server.Route.Access.{Shows, authorize_adapter-Shows}
use codex_mimo_adapter.Server.Handlers.{
  Reply, json, stream, aborted, Runtime, Moment, Routed, configs, object_body, unauthorized,
  within_limit, route_request, stream_response, either_reply, stream_or_fail, prepare,
  stream_failed_response, early_reply, finish_stream, previous_failed, payload_failed,
  error_response,
}

-- A request that may be forwarded.
pub record IsAdmitted (host : Host) (digests : Digests) (projects : List (String × Runtime))
    (header : Option String) (r : Routed) : Type 1 where
  pub shows : Shows digests header (configs projects)
  pub project_id : String
  pub routed : parse_routed_model r.model_alias ≡ ok (project_id, r.model_upstream)
  pub loaded : project_runtime projects project_id ≡ some r.runtime
  pub sized : byte_count (host.serde.to_string r.body) ≤ r.runtime.config.max_request_bytes

within : (size limit : ℕ) → within_limit size limit ≡ ok tt → size ≤ limit
within size limit h = elim (Bool-cases (ltb limit size)) [
  | inl e ↦ absurd (cc (rw e at h))
  | inr e ↦ ground (arith, e)
]

module _ (host : Host) (digests : Digests) (projects : List (String × Runtime))
    (header : Option String) (moment : Moment) where
  -- A request that `responses` forwards shows the token of a loaded project whose local token is set
  -- and not empty, its model is routed to the loaded project whose store and client are used, and it
  -- is no larger than that project allows.
  pub route_request-IsAdmitted :
      (text : String) {r : Routed}
      → route_request host digests projects header moment text ≡ ok r
      → IsAdmitted host digests projects header r
  unfolding route_request
  route_request-IsAdmitted text h =
      let (value, is_value, h1) = >>=-eq-ok (map_err _ (host.serde.from_str text)) _ h in
      let (body, is_body, h2) = >>=-eq-ok (object_body value) _ h1 in
      let (alias, is_alias, h3) = >>=-eq-ok (ok_or (get_str "model" body) _) _ h2 in
      let (route, is_route, h4) = >>=-eq-ok (map_err _ (parse_routed_model alias)) _ h3 in
      let (allowed, is_allowed, h5) =
        >>=-eq-ok (map_err unauthorized (authorize_adapter digests (configs projects) header)) _
          h4 in
      let (runtime, is_runtime, h6) = >>=-eq-ok (ok_or (project_runtime projects route.0) _) _ h5 in
      let size = byte_count (host.serde.to_string body) in
      let (fits, is_fits, same) =
        >>=-eq-ok (within_limit size runtime.config.max_request_bytes) _ h6 in
      subst (IsAdmitted host digests projects header) (ok_injective same) (record {
        shows =
            (authorize_adapter-Shows digests (configs projects) header).0
              (map_err-eq-ok unauthorized _ is_allowed);
        project_id = route.0;
        routed = map_err-eq-ok _ (parse_routed_model alias) is_route;
        loaded = ok_or-eq-ok (project_runtime projects route.0) _ is_runtime;
        sized = within size runtime.config.max_request_bytes is_fits;
      })

-- The frames of a reply that is a stream.
abbrev pub frames_of : Reply → Option (List Frame)
frames_of (stream sent) = some sent
frames_of (json status value) = none
frames_of aborted = none

-- A whole stream, in order: events that do not end the response, one that does, and the end mark.
pub record IsDelivered (sent : List Frame) : Type 0 where
  pub before : List Frame
  pub last : Frame
  pub all : sent ≡ before ++ (last ∷ done ∷ [])
  pub ends : ends_response last ≡ true
  pub quiet : All (λ frame. (is_event frame ≡ true) × (ends_response frame ≡ false)) before

terminals-quiet :
    (before : List Sent)
    → terminals before ≡ 0
    → All (λ frame. (is_event frame ≡ true) × (ends_response frame ≡ false)) (map event before)
unfolding terminals
terminals-quiet [] h = tt
terminals-quiet (sent ∷ before) h = elim (Bool-cases (is_terminal sent.event)) [
  | inl e ↦ absurd (omega (arith, rw e at h))
  | inr e ↦ ((refl, e), terminals-quiet before (rw e at h))
]

IsAnswered-IsDelivered : (sent : List Frame) → IsAnswered sent → IsDelivered sent
IsAnswered-IsDelivered sent h = record {
  before = map event h.before;
  last = event h.last;
  all = h.all;
  ends = h.ends;
  quiet = terminals-quiet h.before h.quiet;
}

-- where a reply is a stream, it is a whole one
abbrev Delivers : Reply → Type 0
Delivers (stream sent) = IsDelivered sent
Delivers (json status value) = Unit
Delivers aborted = Unit

-- the same of an early return
abbrev EarlyDelivers : {A : Type 0} → Result Reply A → Type 0
EarlyDelivers (ok a) = Unit
EarlyDelivers (err reply) = Delivers reply

EarlyDelivers-map_err :
    {E A : Type 0} (f : E → Reply) (r : Result E A)
    → ((e : E) → Delivers (f e))
    → EarlyDelivers (map_err f r)
EarlyDelivers-map_err f (ok a) h = tt
EarlyDelivers-map_err f (err e) h = h e

EarlyDelivers-bind :
    {A B : Type 0} (m : Result Reply A) (f : A → Result Reply B)
    → EarlyDelivers m
    → ((a : A) → EarlyDelivers (f a))
    → EarlyDelivers (m >>= f)
EarlyDelivers-bind (ok a) f h k = k a
EarlyDelivers-bind (err reply) f h k = h

if-Delivers : (b : Bool) (x y : Reply) → Delivers x → Delivers y → Delivers (if b then x else y)
if-Delivers true x y h k = h
if-Delivers false x y h k = k

Delivers-frames_of :
    (reply : Reply) {sent : List Frame}
    → Delivers reply
    → frames_of reply ≡ some sent
    → IsDelivered sent
Delivers-frames_of (stream sent) h e = subst IsDelivered (some-injective _ _ e) h
Delivers-frames_of (json status value) h e = absurd (cc)
Delivers-frames_of aborted h e = absurd (cc)

module _ (host : Host) (moment : Moment) (body : Value) (model_alias : String) where
  early_reply-Delivers :
      (kind message : String) → Delivers (early_reply host moment body model_alias kind message)
  unfolding early_reply lifecycle_event
  early_reply-Delivers kind message = record {
    before = _ ∷ _ ∷ [];
    last = _;
    all = refl;
    ends = refl;
    quiet = ((refl, refl), ((refl, refl), tt));
  }

  previous_failed-Delivers :
      (e : HistoryError)
      → Delivers (
          previous_failed host moment body model_alias (early_reply host moment body model_alias) e)
  previous_failed-Delivers (invalid message) = early_reply-Delivers "invalid_tool_history" message
  previous_failed-Delivers panicked = tt

  payload_failed-Delivers :
      (e : HistoryError)
      → Delivers
          (payload_failed host moment body model_alias (early_reply host moment body model_alias) e)
  unfolding error_response
  payload_failed-Delivers (invalid message) =
      if-Delivers (is_history_error_message message) _ _
        (early_reply-Delivers "invalid_tool_history" message) tt
  payload_failed-Delivers panicked = tt

  module _ (runtime : Runtime) (model_upstream : String) (db : runtime.store.database.Db) where
    prepare-EarlyDelivers : EarlyDelivers (
        prepare host moment body model_alias runtime model_upstream
          (early_reply host moment body model_alias)
          db)
    unfolding prepare
    prepare-EarlyDelivers =
        EarlyDelivers-bind (map_err _ (previous_response runtime.store db host body moment.drawn)) _
          (EarlyDelivers-map_err _ (previous_response runtime.store db host body moment.drawn)
            previous_failed-Delivers)
          λ previous.
            EarlyDelivers-map_err _
              (build_chat_payload host body model_upstream previous (object empty) moment.drawn)
              payload_failed-Delivers

    stream_or_fail-Delivers :
        (setup : Setup) (payload : Value) (unsupported : Option String)
        → Delivers (
            stream_or_fail host moment body model_alias runtime model_upstream setup payload
              unsupported)
    unfolding stream_failed_response
    stream_or_fail-Delivers setup payload (some message) =
        IsAnswered-IsDelivered _
          (fail_started-IsAnswered setup "unsupported_multimodal_input" message)
    stream_or_fail-Delivers setup payload none = IsAnswered-IsDelivered _ (
        stream_task-IsAnswered setup moment.failed_at
          (runtime.chat_stream (with_stream true payload)) moment.has_permit)

    reply-Delivers :
        (prepared : Result Reply ChatPayload)
        → EarlyDelivers prepared
        → Delivers (
            either_reply host moment body model_alias runtime model_upstream
              (finish_stream host moment body model_alias runtime model_upstream db prepared))
    reply-Delivers (err reply) early = early
    reply-Delivers (ok (payload, messages, context, drawn)) early =
        stream_or_fail-Delivers _ payload _

    -- A reply of `stream_response` that is a stream, also one that fails before it begins: events,
    -- of which the last one ends the response and no other does, and then the end mark.
    pub stream_response-IsDelivered :
        {sent : List Frame}
        → frames_of (stream_response host moment body model_alias runtime model_upstream db)
          ≡ some sent
        → IsDelivered sent
    unfolding stream_response
    stream_response-IsDelivered h = Delivers-frames_of _ (reply-Delivers _ prepare-EarlyDelivers) h
