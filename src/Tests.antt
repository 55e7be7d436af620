-- ===== src/Tests.antt =====
-- Inputs, the theorems at them, and runs by evaluation.
mod Posix
mod Programs
mod Supervision
mod Monitoring
mod Commands
mod Serving
mod Titles
mod OldMaster
mod Echoing
mod Loading
mod Forking
mod Starting
mod Windows
