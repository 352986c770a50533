-- ===== src/Server.antt =====
-- src/server.rs, one child for each of its tasks.
pub mod Errors
pub mod Frames
pub mod Failed
pub mod Driver
pub mod Ends
pub mod Route
pub mod Previous
pub mod Handlers
pub mod Checked
pub mod Refresh
