-- ===== src/State.antt =====
-- The package state: labels, the data that is kept on a node, profiles, and the state machine.
pub mod Labels
pub mod Data
pub mod Profiles
pub mod Transition
pub mod Notify
pub mod Apply
pub mod Sessions
pub mod Choice
pub mod Outcomes
pub mod Frame
pub mod Maintained
pub mod Known
