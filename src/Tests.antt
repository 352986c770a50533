-- ===== src/Tests.antt =====
-- Runs of the definitions on concrete inputs, and the theorems applied to them.
mod Samples
mod Texts
mod Names
mod Histories
mod Store
mod Streams
mod Upstreams
mod Servers
mod Configs
mod Setups
mod Projects
