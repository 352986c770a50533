-- ===== src/Request.antt =====
-- src/conversion/responses_to_chat.rs: a Responses request turned into a Chat Completions payload.
-- The children hold the parts: Items reads the input, Repair puts tool outputs into a history,
-- Payload assembles the request, and the others prove what they do.
pub mod Defs
pub mod Items
pub mod Repair
pub mod Payload
pub mod Accepted
pub mod Roles
pub mod Sent
