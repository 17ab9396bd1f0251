-- ===== src/Sbatch.antt =====
-- hpc_relay/_sbatch.py: the status variables, the lease, the cancellation guard and the wait for a
-- job.
pub mod World
pub mod Artifact
pub mod Variables
pub mod Guard
pub mod Refresh
pub mod Poll
pub mod Wait
pub mod Task
mod Tests
