-- ===== src/Controllers.antt =====
-- The package controllers: the handlers that evaluate a node, and the reconciler around them.
pub mod Handler
pub mod Evaluate
pub mod Reconcile
pub mod Configuration
pub mod Attempts
pub mod Commits
pub mod StateLabel
pub mod Views
pub mod Advance
pub mod Persistence
pub mod KnownStates
pub mod KnownData
pub mod KnownNode
pub mod KnownConfig
pub mod Reachable
