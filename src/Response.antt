-- ===== src/Response.antt =====
-- src/conversion/chat_to_responses.rs: a Chat Completions answer turned into a Responses object and
-- the stored response for its continuation. Items has the pieces that the streaming assembler uses
-- too, Build the conversion.
pub mod Items
pub mod Build
