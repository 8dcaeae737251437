-- ===== src/Tests.antt =====
-- Concrete objects and runs: the theorems at work on them.
mod Fixtures
mod Names
mod Lifecycle
mod Reconcile
mod Clusters
mod Pods
mod Labs
mod LabRuns
mod Instances
mod InstanceRuns
mod Reports
mod Statuses
mod System
mod Drains
mod Manager
mod Schemes
