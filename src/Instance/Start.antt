-- ===== src/Instance/Start.antt =====
-- The start of a container of the database: the program's parts in the order of its main.
pub mod SubDomain
pub mod Cgroup
pub mod Root
pub mod Gpadmin
pub mod LabelPvc
pub mod Container
pub mod Sshd
