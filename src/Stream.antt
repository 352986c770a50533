-- ===== src/Stream.antt =====
-- src/conversion/stream_chat_to_responses.rs: the assembler that turns upstream chunks into the
-- events of a Responses stream. Exec has its actions, Defs its state and events, Emit the items,
-- Think the text and reasoning, ToolCalls the calls, Finalize the end.
pub mod Exec
pub mod Keeps
pub mod Walk
pub mod Numbering
pub mod Continuation
pub mod Replay
pub mod Defs
pub mod Emit
pub mod Think
pub mod ToolCalls
pub mod Finalize
