-- ===== src/Project.antt =====
-- src/project.rs: projects, their identifiers and files, and how the current one is found.
pub mod Ids
pub mod EnvText
pub mod Registry
pub mod Resolve
pub mod Clean
