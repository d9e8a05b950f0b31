-- ===== src/Query.antt =====
-- modules/query: the scorers that walk posting lists, and how a query tree composes them.
pub mod Docs
pub mod Cursor
pub mod Floats
pub mod Conjunction
pub mod Exclusion
pub mod Term
pub mod Boolean
pub mod Parser
pub mod Search
pub mod Wand
