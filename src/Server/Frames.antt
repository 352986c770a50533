-- ===== src/Server/Frames.antt =====
-- src/server.rs: what the client of a stream is sent.
use codex_mimo_adapter.Base.{String, Bool, true, false, ◌||◌, ◌==◌}
use codex_mimo_adapter.Json.{Value}
use codex_mimo_adapter.Stream.Defs.{Sent}
use codex_mimo_adapter.Stream.Walk.{is_terminal}

-- an event of the assembler, a failure that the task words itself under the name
-- `response.failed`, an event by its name and its payload where there is no assembler, or the line
-- that ends every stream, the end mark
pub data Frame : Type 0 where
  event : Sent → Frame
  failed : Value → Frame
  named : String → Value → Frame
  done : Frame

-- a frame that is an event, and not the end mark
abbrev pub is_event : Frame → Bool
is_event done = false
is_event _ = true

-- an event that ends a response
abbrev pub ends_response : Frame → Bool
ends_response (event sent) = is_terminal sent.event
ends_response (failed response) = true
ends_response (named name payload) =
    name == "response.completed" || (name == "response.incomplete" || name == "response.failed")
ends_response done = false
