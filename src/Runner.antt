-- ===== src/Runner.antt =====
-- The command runners of hpc_relay/cmd_runners.
pub mod Types
pub mod Remote
pub mod Context
pub mod Merged
pub mod Local
pub mod Ssh
pub mod Cineca
mod Tests
