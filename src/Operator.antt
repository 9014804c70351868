-- ===== src/Operator.antt =====
-- greenplum-operator: the reconcilers and the objects that they write.
pub mod Defaults
pub mod Executor
pub mod StatefulSet
pub mod World
pub mod AntiAffinity
pub mod Finalizer
pub mod Status
pub mod Expansion
pub mod Resources
pub mod Reconcile
pub mod Pxf
pub mod ConfigMap
pub mod Services
pub mod Roles
pub mod Job
pub mod Images
