-- ===== src/Api.antt =====
-- The custom resources of greenplum-operator/api, and what the program reads of other objects.
pub mod Quantity
pub mod Cluster
pub mod Pxf
pub mod Objects
