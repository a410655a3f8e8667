-- ===== src/Esx.antt =====
-- The package esx: the labels that follow the state of a node's ESX host, and the virtual machines
-- that are shut off and started with it.
pub mod Vcenter
pub mod Hosts
pub mod Inspection
pub mod Power
pub mod Nodes
pub mod Rounds
pub mod Grouping
pub mod Labelling
pub mod Poweroff
pub mod Spared
