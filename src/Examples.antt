-- ===== src/Examples.antt =====
-- Tests at concrete values: a small cluster, and runs of the controllers and plugins on it.
pub mod Cluster
pub mod States
pub mod Reconciliations
pub mod Encoding
pub mod Plugins
pub mod Drains
pub mod Neighbours
pub mod Configurations
pub mod Hosts
pub mod Clouds
pub mod Leases
pub mod Histories
