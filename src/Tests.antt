-- ===== src/Tests.antt =====
-- Runs of the theorems on a small machine.
pub mod Blocks
pub mod Calls
pub mod Copying
pub mod Files
pub mod Forking
pub mod Machine
pub mod Pipes
pub mod Printing
pub mod Scheduling
pub mod Serving
pub mod Starting
pub mod Strings
pub mod World
