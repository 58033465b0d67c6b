-- ===== src/App.antt =====
-- internal/app/app.go: the application's runs. The state store is the disk of State/Disk.antt; a run
-- is given the effective configuration's account and the target that discovery resolved.
pub mod Persist
pub mod Reconciled
pub mod WriteAhead
pub mod Resume
pub mod Plan
pub mod Prepare
pub mod Run
pub mod Runner
pub mod Asked
pub mod Turns
pub mod Renew
pub mod Rounds
pub mod Granted
pub mod Exclusive
pub mod Phases
pub mod Standing
pub mod Announced
pub mod Samples
pub mod RunSamples
mod Examples
mod RunExamples
