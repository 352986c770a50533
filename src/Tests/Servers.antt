-- ===== src/Tests/Servers.antt =====
-- The handlers on concrete requests.
use codex_mimo_adapter.Base.{
  ℕ, String, ◌≡◌, ◌↔◌, refl, true, Option, none, some, List, [], ◌∷◌, Distinct,
}
use codex_mimo_adapter.Base.Int.{pos}
use codex_mimo_adapter.Base.Result.{Result, ok, err}
use codex_mimo_adapter.Host.{Host}
use codex_mimo_adapter.Json.{Value, string, obj, arr, fields}
use codex_mimo_adapter.Project.Ids.{Digests, generate_project_id}
use codex_mimo_adapter.Continuation.{function_output_call_ids}
use codex_mimo_adapter.Upstream.{UpstreamError, network}
use codex_mimo_adapter.Server.Frames.{Frame}
use codex_mimo_adapter.Server.Driver.{frames, stream_task}
use codex_mimo_adapter.Server.Ends.{IsAnswered, stream_task-IsAnswered}
use codex_mimo_adapter.Server.Route.{parse_routed_model, listed_model, authorize_adapter}
use codex_mimo_adapter.Server.Route.Listed.{generated, parse_routed_model-listed_model}
use codex_mimo_adapter.Server.Route.Access.{Shows, authorize_adapter-Shows}
use codex_mimo_adapter.Server.Previous.{Store, previous_response}
use codex_mimo_adapter.Server.Previous.Found.{Answers, previous_response-Answers}
use codex_mimo_adapter.Server.Handlers.{Runtime, Moment, route_request, stream_response}
use codex_mimo_adapter.Server.Checked.{
  IsAdmitted, IsDelivered, route_request-IsAdmitted, frames_of, stream_response-IsDelivered,
}
use codex_mimo_adapter.Tests.Configs.{config}
use codex_mimo_adapter.Tests.Samples.{host}
use codex_mimo_adapter.Tests.Store.{payload, database, two_rows, first}
use codex_mimo_adapter.Tests.Streams.{setup}

abbrev digests : Digests
digests = record { sha256 = λ s. 18 ∷ 171 ∷ []; hmac_sha256 = λ s t. 255 ∷ [] }

abbrev upstream : Result UpstreamError (List (Result String (List ℕ)))
upstream = ok (ok (0x64 ∷ 0x0a ∷ 0x0a ∷ []) ∷ err "reset" ∷ [])

stream_task-IsAnswered_example :
    IsAnswered (frames (stream_task setup true ("resp_9", pos 5) upstream))
stream_task-IsAnswered_example = stream_task-IsAnswered setup ("resp_9", pos 5) upstream true

parse_routed_model-listed_model_example :
    parse_routed_model (listed_model (generate_project_id digests "/home") "mimo-v2")
    ≡ ok (generate_project_id digests "/home", "mimo-v2")
parse_routed_model-listed_model_example =
    parse_routed_model-listed_model digests (generate_project_id digests "/home") "mimo-v2"
      (generated "/home" 18 (171 ∷ []) refl) refl

listed : listed_model (generate_project_id digests "/home") "v" ≡ "mimo_adapter/12ab/mimo/v"
unfolding listed_model generate_project_id
listed = refl

authorize_adapter-Shows_example :
    (authorize_adapter digests (config ∷ []) (some "Bearer x") ≡ ok tt)
    ↔ Shows digests (some "Bearer x") (config ∷ [])
authorize_adapter-Shows_example = authorize_adapter-Shows digests (config ∷ []) (some "Bearer x")

abbrev store : Store
store = record { payload = payload; database = database; ttl_seconds = pos 30; now = pos 70 }

abbrev body : Value
body = obj (
    ("model", string "mimo_adapter/global/mimo/mimo-v2")
    ∷ ("previous_response_id", string "resp_1")
    ∷ (
      "input",
      arr (
          obj (
            ("type", string "function_call_output")
            ∷ ("call_id", string "call_1")
            ∷ ("output", string "done")
            ∷ [])
          ∷ []),
    )
    ∷ [])

found : previous_response store two_rows host body 0 ≡ ok (some first)
unfolding previous_response fields
found = refl

previous_response-Answers_example :
    (ids : List String) × (function_output_call_ids host body 0 ≡ ok ids)
    × Distinct ids
    × Answers ids (some first)
previous_response-Answers_example = previous_response-Answers store two_rows host body 0 found

abbrev runtime : Runtime
runtime = record {
  config = config;
  store = store;
  chat = λ sent. err (network "down");
  chat_stream = λ sent. upstream;
}

abbrev projects : List (String × Runtime)
projects = ("global", runtime) ∷ []

abbrev moment : Moment
moment = record { drawn = 0; failed_at = ("resp_9", pos 5); has_permit = true }

-- a parser that reads every text as the request above
abbrev parsing : Host
parsing = record host { serde = record host.serde { from_str = λ text. ok body } }

abbrev header : Option String
header = some "Bearer codex-mimo-adapter-ff"

routed :
    route_request parsing digests projects header moment "{}"
    ≡ ok (record {
      body = body;
      model_alias = "mimo_adapter/global/mimo/mimo-v2";
      model_upstream = "mimo-v2";
      runtime = runtime;
    })
unfolding route_request fields
routed = refl

route_request-IsAdmitted_example : IsAdmitted parsing digests projects header (record {
  body = body;
  model_alias = "mimo_adapter/global/mimo/mimo-v2";
  model_upstream = "mimo-v2";
  runtime = runtime;
})
route_request-IsAdmitted_example =
    route_request-IsAdmitted parsing digests projects header moment "{}" routed

abbrev frames_or_none : Option (List Frame) → List Frame
frames_or_none none = []
frames_or_none (some sent) = sent

abbrev sent : List Frame
sent =
    frames_or_none (frames_of (stream_response host moment body "mimo" runtime "mimo-v2" two_rows))

replied : frames_of (stream_response host moment body "mimo" runtime "mimo-v2" two_rows) ≡ some sent
unfolding stream_response fields
replied = refl

stream_response-IsDelivered_example : IsDelivered sent
stream_response-IsDelivered_example =
    stream_response-IsDelivered host moment body "mimo" runtime "mimo-v2" two_rows replied
