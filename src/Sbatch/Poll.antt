-- ===== src/Sbatch/Poll.antt =====
-- `_poll_completion_once` of _sbatch.py.
pub mod Answer
pub mod OnBoard
pub mod Told
mod Tests
use hpc_relay.Base.{Bool, true, false, List, [], ◌∷◌, Option, none, some, if◌then◌else◌}
use hpc_relay.Exec.{Outcome, returns, raises, Exec, pure, ◌>>=◌, ◌>>◌}
use hpc_relay.Result.{OpError, Result, ok, err}
use hpc_relay.Sbatch.Guard.{flow_cancellation_guard}
use hpc_relay.Sbatch.Refresh.{try_update_status}
use hpc_relay.Sbatch.Variables.{set_status, read_status, delete_status}
use hpc_relay.Sbatch.World.{Status, slurm, cancelling, Env, World}
use hpc_relay.Slurm.Types.{SlurmJobId, SlurmJobState, cancelled, pending, is_terminal_state}
use hpc_relay.Text.{Text}

-- `Result[SlurmJobState] | None`, where `none` is to keep polling.
abbrev pub Poll : Type 0
Poll = Option (Result SlurmJobState)

module _ (env : Env) (hpc : Text) (job_id : SlurmJobId) where
  -- What is made of the status that was read.
  unfoldable pub conclude : Option Status → Exec World Poll
  unfolding set_status delete_status
  conclude none = set_status env hpc job_id (slurm pending) >> pure none
  conclude (some cancelling) = pure none
  conclude (some (slurm state)) =
      if is_terminal_state state
      then delete_status env hpc job_id >> pure (some (ok state))
      else pure none

  -- Behind the guard: `guard.cancelled` is true if it is not empty.
  unfoldable pub after_guard : Result (List SlurmJobId) → Exec World Poll
  unfolding delete_status try_update_status read_status conclude
  after_guard (err e) = pure (some (err e))
  after_guard (ok (id ∷ ids)) = delete_status env hpc job_id >> pure (some (ok cancelled))
  after_guard (ok []) = do
    try_update_status env hpc
    status ← read_status env hpc job_id
    conclude status

  unfoldable pub poll_completion_once : Exec World Poll
  unfolding flow_cancellation_guard after_guard
  poll_completion_once = do guard ← flow_cancellation_guard env hpc; after_guard guard
