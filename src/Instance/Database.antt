-- ===== src/Instance/Database.antt =====
-- What the pods of the database run: greenplum-instance/cmd/startGreenplumContainer.
pub mod InitSystem
pub mod Cluster
pub mod Daemon
