-- ===== src/Tests.antt =====
-- Runs of the model at fixed inputs, and each theorem applied at an input that meets its hypotheses.
mod Wire
mod Server
mod Resync
mod Waits
mod Roles
mod Cmdline
mod Buffer
mod Keys
mod Commands
mod Snapshot
mod Life
