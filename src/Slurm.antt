-- ===== src/Slurm.antt =====
-- hpc_relay/slurm.py: jobs, their submission and their states.
pub mod Types
pub mod JobId
pub mod Sacct
pub mod Await
pub mod Submit
mod Tests
