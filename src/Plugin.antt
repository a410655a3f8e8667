-- ===== src/Plugin.antt =====
-- The package plugin: the interfaces of check, notification and trigger plugins, and their chains.
pub mod Check
pub mod Trigger
pub mod Notification
pub mod Schedules
pub mod Chains
pub mod Registry
pub mod Assembly
