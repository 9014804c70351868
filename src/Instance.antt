-- ===== src/Instance.antt =====
-- greenplum-instance and the packages under pkg that it uses: what runs in the database's pods.
pub mod Machine
pub mod Files
pub mod Config
pub mod Hosts
pub mod Expand
pub mod Database
pub mod KnownHosts
pub mod Dns
pub mod Multidaemon
pub mod Start
pub mod Pxf
pub mod Ssh
pub mod KeyScan
