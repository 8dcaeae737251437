-- ===== src/System.antt =====
-- The controllers next to each other, as cmd/main.go runs them on one cluster.
pub mod Steps
pub mod Labs
pub mod Instances
pub mod Kinds
pub mod Owned
pub mod OwnedRuns
pub mod Neighbours
pub mod Reports
pub mod Handover
pub mod Notebooks
