-- ===== src/Server/Handlers.antt =====
-- src/server.rs, the handlers of the Responses API: `responses`, `complete_response` and
-- `stream_response`. What the upstream model answers and whether there is a permit are arguments.
use codex_mimo_adapter.Base.{
  ℕ, ◌+◌, String, Bool, true, false, Option, none, some, List, [], ◌∷◌, ltb, if◌then◌else◌,
}
use codex_mimo_adapter.Base.Int.{ℤ}
use codex_mimo_adapter.Base.Result.{Result, ok, err, ok_or, map_err, ◌>>=◌, ◌>>◌}
use codex_mimo_adapter.Base.Str.{concat, byte_count}
use codex_mimo_adapter.Json.{
  Value, string, object, empty, obj, get, get_str, as_bool, and_then, unwrap_or, fields, is_object,
}
use codex_mimo_adapter.Host.{Host}
use codex_mimo_adapter.State.{put}
use codex_mimo_adapter.MediaGuard.{
  find_unsupported_multimodal_input, is_multimodal_unsupported_error,
  unsupported_multimodal_error_message,
}
use codex_mimo_adapter.Config.{Config}
use codex_mimo_adapter.Project.Ids.{Digests}
use codex_mimo_adapter.Request.Defs.{HistoryError, invalid, panicked}
use codex_mimo_adapter.Request.Payload.{ChatPayload, build_chat_payload}
use codex_mimo_adapter.Response.Build.{build_response}
use codex_mimo_adapter.Stream.Defs.{Setup, new}
use codex_mimo_adapter.Stream.Finalize.{start}
use codex_mimo_adapter.Tools.{ToolContext}
use codex_mimo_adapter.Upstream.{UpstreamError, error_text, with_stream}
use codex_mimo_adapter.Server.Errors.{is_history_error_message, upstream_http_status}
use codex_mimo_adapter.Server.Failed.{responses_failed_value, early_stream_failed_response}
use codex_mimo_adapter.Server.Frames.{Frame, done}
use codex_mimo_adapter.Server.Driver.{frames, task_setup, stream_task, fail_with}
use codex_mimo_adapter.Server.Previous.{Store, previous_response}
use codex_mimo_adapter.Server.Route.{parse_routed_model, authorize_adapter, project_runtime}

-- What a request is answered with: a status and a value, the frames of a stream, or nothing, where
-- the handler panics.
pub data Reply : Type 0 where
  json : ℕ → Value → Reply
  stream : List Frame → Reply
  aborted : Reply

-- a loaded project, with what its client answers to a payload
pub record Runtime : Type 1 where
  pub config : Config
  pub store : Store
  pub chat : Value → Result UpstreamError Value
  pub chat_stream : Value → Result UpstreamError (List (Result String (List ℕ)))

-- what a request finds: how many identifiers were drawn, the identifier and the time of a failed
-- response, and whether there is a permit
pub record Moment : Type 0 where
  pub drawn : ℕ
  pub failed_at : String × ℤ
  pub has_permit : Bool

unfoldable pub error_response : ℕ → String → String → Reply
unfolding fields
error_response status kind message =
    json status
      (obj (("error", obj (("type", string kind) ∷ ("message", string message) ∷ [])) ∷ []))

module _ (host : Host) (moment : Moment) (body : Value) (model_alias : String) where
  unfoldable pub failed_reply : ℕ → String → String → Reply
  unfolding responses_failed_value
  failed_reply status kind message =
      json status (responses_failed_value body model_alias kind message moment.failed_at)

  unfoldable pub early_reply : String → String → Reply
  unfolding early_stream_failed_response
  early_reply kind message =
      stream (early_stream_failed_response body model_alias kind message moment.failed_at)

  -- how a failed `previous_response` is answered, by the reply to a failure
  abbrev pub previous_failed : (String → String → Reply) → HistoryError → Reply
  previous_failed failing (invalid message) = failing "invalid_tool_history" message
  previous_failed failing panicked = aborted

  -- how a failed `build_chat_payload` is answered
  abbrev pub payload_failed : (String → String → Reply) → HistoryError → Reply
  payload_failed failing (invalid message) =
      if is_history_error_message message
      then failing "invalid_tool_history" message
      else error_response 400 "invalid_request_error" message
  payload_failed failing panicked = aborted

  module _ (runtime : Runtime) (model_upstream : String) where
    -- what `complete_response` and `stream_response` begin with
    unfoldable pub prepare :
        (String → String → Reply) → runtime.store.database.Db → Result Reply ChatPayload
    unfolding previous_response build_chat_payload
    prepare failing db = do
      previous ←
          map_err (previous_failed failing)
            (previous_response runtime.store db host body moment.drawn)
      map_err (payload_failed failing)
          (build_chat_payload host body model_upstream previous (object empty) moment.drawn)

    abbrev pub unless_unsupported : (String → Reply) → Option String → Result Reply (Unit {0})
    unless_unsupported failing none = ok tt
    unless_unsupported failing (some message) = err (failing message)

    abbrev pub with_permit : Bool → Result Reply (Unit {0})
    with_permit true = ok tt
    with_permit false =
        err (error_response 429 "rate_limit_error" "adapter concurrency limit reached")

    -- how a failed call of the upstream model is answered
    unfoldable pub upstream_failed : UpstreamError → Reply
    unfolding failed_reply error_text is_multimodal_unsupported_error upstream_http_status
    upstream_failed error =
        let message = error_text error in
        if is_multimodal_unsupported_error message
        then failed_reply 200 "unsupported_multimodal_input" unsupported_multimodal_error_message
        else failed_reply (upstream_http_status error) "upstream_error" message

    -- `complete_response`, with the store behind it
    unfoldable pub answer :
        runtime.store.database.Db → Result Reply (Value × runtime.store.database.Db)
    unfolding prepare find_unsupported_multimodal_input upstream_failed build_response put
        with_stream failed_reply
    answer db = do
      (payload, messages, context, drawn) ← prepare (failed_reply 200) db
      unless_unsupported (failed_reply 200 "unsupported_multimodal_input")
          (find_unsupported_multimodal_input model_upstream payload)
      with_permit moment.has_permit
      upstream ← map_err upstream_failed (runtime.chat (with_stream false payload))
      map_err (failed_reply 500 "internal_error") (
          build_response host (put runtime.store.payload runtime.store.database) body upstream
            model_alias model_upstream messages context runtime.store.now drawn db)

    abbrev pub settle :
        runtime.store.database.Db
        → Result Reply (Value × runtime.store.database.Db)
        → Reply × runtime.store.database.Db
    settle db (ok (response, db')) = (json 200 response, db')
    settle db (err reply) = (reply, db)

    unfoldable pub complete_response : runtime.store.database.Db → Reply × runtime.store.database.Db
    unfolding answer
    complete_response db = settle db (answer db)

    abbrev pub put_result : {S : Type 0} → Result String S → Result String (Unit {0})
    put_result (ok s) = ok tt
    put_result (err error) = err error

    -- `StreamAssembler::new`, with the identifiers that it draws
    unfoldable pub stream_setup : runtime.store.database.Db → List Value → ToolContext → ℕ → Setup
    unfolding put
    stream_setup db messages context drawn = record {
      host = host;
      body = body;
      model_alias = model_alias;
      model_upstream = model_upstream;
      base_messages = messages;
      tool_context = context;
      state_put = λ item. put_result (put runtime.store.payload runtime.store.database item db);
      emit = λ log sent. ok tt;
      response_id = concat ("resp_" ∷ host.uuid drawn ∷ []);
      created_at = runtime.store.now;
      message_item_id = concat ("msg_" ∷ host.uuid (drawn + 1) ∷ []);
      reasoning_item_id = concat ("rs_" ∷ host.uuid (drawn + 2) ∷ []);
    }

    -- `stream_failed_response`
    unfoldable pub stream_failed_response : Setup → String → String → List Frame
    unfolding start fail_with
    stream_failed_response setup kind message =
        let given = task_setup setup in
        frames (record {
          assembler = fail_with given kind message (start given new).1;
          sent_last = done ∷ [];
        })

    abbrev pub stream_or_fail : Setup → Value → Option String → Reply
    stream_or_fail setup payload (some message) =
        stream (stream_failed_response setup "unsupported_multimodal_input" message)
    stream_or_fail setup payload none = stream (
        frames (
          stream_task setup moment.has_permit moment.failed_at
            (runtime.chat_stream (with_stream true payload))))

    abbrev pub either_reply : Result Reply Reply → Reply
    either_reply (ok reply) = reply
    either_reply (err reply) = reply

    -- behind the preparation
    abbrev pub finish_stream :
        runtime.store.database.Db → Result Reply ChatPayload → Result Reply Reply
    finish_stream db prepared = do
      (payload, messages, context, drawn) ← prepared
      ok (
          stream_or_fail (stream_setup db messages context drawn) payload
            (find_unsupported_multimodal_input model_upstream payload))

    -- `stream_response`
    unfoldable pub stream_response : runtime.store.database.Db → Reply
    unfolding prepare find_unsupported_multimodal_input stream_setup stream_task with_stream
        early_reply stream_failed_response
    stream_response db = either_reply (finish_stream db (prepare early_reply db))

-- A request that has passed the checks of `responses`.
pub record Routed : Type 1 where
  pub body : Value
  pub model_alias : String
  pub model_upstream : String
  pub runtime : Runtime

abbrev pub configs : List (String × Runtime) → List Config
configs [] = []
configs ((project_id, runtime) ∷ projects) = runtime.config ∷ configs projects

abbrev pub unauthorized : String → Reply
unauthorized message = error_response 401 "unauthorized" message

abbrev pub not_found_message : String → String
not_found_message project_id = concat (
    "Project route " ∷ project_id
    ∷ " is not loaded. Run 'codex-mimo-adapter init' for that project and call POST /admin/refresh."
    ∷ [])

abbrev pub object_body : Value → Result Reply Value
object_body value =
    if is_object value
    then ok value
    else err (error_response 400 "invalid_request_error" "request body must be an object")

abbrev pub within_limit : ℕ → ℕ → Result Reply (Unit {0})
within_limit size limit =
    if ltb limit size
    then err (error_response 413 "request_too_large" "Invalid request size")
    else ok tt

module _ (host : Host) (digests : Digests) (projects : List (String × Runtime))
    (header : Option String) (moment : Moment) where
  -- `responses` up to the choice between a stream and a whole answer
  unfoldable pub route_request : String → Result Reply Routed
  unfolding get_str parse_routed_model failed_reply authorize_adapter project_runtime error_response
  route_request text = do
    value ←
        map_err (λ error. error_response 400 "invalid_request_error" error)
          (host.serde.from_str text)
    body ← object_body value
    model_alias ←
        ok_or (get_str "model" body)
          (error_response 400 "invalid_request_error" "model is required")
    (project_id, model_upstream) ←
        map_err (λ message. failed_reply host moment body model_alias 400 "invalid_model" message)
          (parse_routed_model model_alias)
    map_err unauthorized (authorize_adapter digests (configs projects) header)
    runtime ←
        ok_or (project_runtime projects project_id)
          (error_response 400 "project_not_found" (not_found_message project_id))
    within_limit (byte_count (host.serde.to_string body)) runtime.config.max_request_bytes
    ok (record {
      body = body;
      model_alias = model_alias;
      model_upstream = model_upstream;
      runtime = runtime;
    })

  module _ (db : (runtime : Runtime) → runtime.store.database.Db) where
    abbrev pub dispatch : Result Reply Routed → Reply
    dispatch (err reply) = reply
    dispatch (ok r) =
        if unwrap_or false (and_then (get "stream" r.body) as_bool)
        then stream_response host moment r.body r.model_alias r.runtime r.model_upstream
            (db r.runtime)
        else (complete_response host moment r.body r.model_alias r.runtime r.model_upstream
            (db r.runtime)).0

    -- `responses`
    unfoldable pub responses : String → Reply
    unfolding get route_request stream_response complete_response
    responses text = dispatch (route_request text)
