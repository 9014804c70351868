-- ===== src/Tests.antt =====
-- Concrete clusters, answers and pods, and what the definitions and theorems give for them.
mod Fixtures
mod OfAdmission
mod OfOperator
mod OfObjects
mod OfInstance
mod OfStart
mod OfRelease
mod OfPrograms
mod OfScan
