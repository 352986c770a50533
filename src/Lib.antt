-- ===== src/Lib.antt =====
-- codex-mimo-adapter: an HTTP adapter that takes requests of the Responses API, sends them to a
-- model behind a chat completions API, and turns the answers back, whole or as a stream of events.
-- This library models its conversions and its store, and proves what they promise.
--
-- The parts, and how they interact. A request's input is read into chat messages and tool outputs
-- (src/conversion/responses_to_chat.rs), with the tools renamed for the upstream model
-- (src/conversion/tool_context.rs). Tool outputs continue a response that was stored with its
-- pending calls (src/state.rs, src/codex_chat_history.rs). The answer becomes a response
-- (src/conversion/chat_to_responses.rs) or, chunk by chunk, the events of a stream
-- (src/conversion/stream_chat_to_responses.rs); either way it is stored for the next request.
--
-- The files. Base has what all share: library names, tests, lists, results, the standard library's
-- functions on texts, decimal numbers. Json has the values of serde_json, objects with their keys
-- in ascending order, as that crate keeps them by default. Host has what the program takes from its
-- surroundings: the JSON printer and parser, the random identifiers, and the order in which a hash
-- map is read; these are arguments of the definitions that use them. Text models
-- src/conversion/text.rs, Tools src/conversion/tool_context.rs, Multimodal
-- src/conversion/multimodal_input.rs, MediaGuard src/media_guard.rs, History
-- src/codex_chat_history.rs, State src/state.rs, Request src/conversion/responses_to_chat.rs,
-- Response src/conversion/chat_to_responses.rs and Stream
-- src/conversion/stream_chat_to_responses.rs. Upstream models the stream parser of src/upstream.rs,
-- Config src/config.rs, Project src/project.rs, Continuation src/conversion/mod.rs, Init the writes
-- of src/init.rs over a file system that is an argument, and Server src/server.rs: Server/Handlers
-- composes the conversions into the answers to a request, and Server/Driver runs the assembler on
-- what the upstream model sends. A definition has the name of the function it models; a helper
-- beside it is a part of that function's body. Tests runs the definitions on concrete inputs.
--
-- How the code is written here. Code that may fail returns a Result. The methods of the stream
-- assembler are actions (Stream/Exec): they take the assembler's state and return a result and the
-- new state, so that what was changed before a failure stays changed. The state also keeps the
-- events handed to the callback `emit` and the responses handed to `state_put`, and whether these
-- callbacks fail is a parameter. A handler returns its reply as a value; an early return is the
-- error of a Result whose errors are replies. What the upstream model answers, chunk by chunk, is
-- an argument of the handler. The clock is an argument. The statements that src/state.rs gives to
-- SQLite are the fields of `Database`, and the format of its payloads those of `Payload`. An index
-- into a JSON value that the source would panic on is an error of its own. Numbers that the source
-- keeps in 64 bits wrap where it adds or subtracts them, as they do in a release build. Two counts
-- are not wrapped: the events of a stream (64 bits) and the suffixes tried for a name (32 bits),
-- whose ends no run reaches. Three loops run on fuel. The search for an unused name in `safe_name`
-- has two more than the number of used names, and so at least one more than the candidates that can
-- be taken. The loop over the blocks of an event stream has as much as the buffer has characters,
-- and the decoder of UTF-8 as much as there are bytes; each round takes at least one off. Positions
-- in a text are counted in characters where the source counts bytes.
--
-- Not modelled: the HTTP server and client around the handlers (axum, tokio and reqwest), the
-- handler `models` of src/server.rs, the prompts, templates and TOML edits of the setup
-- (src/init.rs), the entry points, and the launcher. Of the modelled files, log calls and the
-- opening of the database are left out.
pub mod Base
pub mod Json
pub mod Text
pub mod State
pub mod History
pub mod Host
pub mod Tools
pub mod Multimodal
pub mod MediaGuard
pub mod Request
pub mod Response
pub mod Stream
pub mod Upstream
pub mod Config
pub mod Project
pub mod Continuation
pub mod Server
pub mod Init
pub mod Tests
