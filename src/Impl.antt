-- ===== src/Impl.antt =====
-- The package plugin/impl: the check and trigger plugins, over the Kubernetes API of Api.antt.
pub mod Labels
pub mod TimeWindow
pub mod Wait
pub mod MaxMaintenance
pub mod Affinity
pub mod Stagger
pub mod Semver
pub mod SlackThread
pub mod Staggered
pub mod Outdated
pub mod Hypervisor
pub mod Changes
pub mod Candidates
pub mod Elapsed
pub mod Window
pub mod Eviction
pub mod Evicted
pub mod Neighbours
pub mod MissingData
