-- ===== src/Split.antt =====
-- src/split: how a large spec is split into parts.
pub mod Coverage
pub mod Complete
mod Samples
