-- ===== src/Sbatch/Tests.antt =====
-- Runs of the functions of _sbatch.py with a server and an HPC that are written out here.
use hpc_relay.Base.{ℕ, ◌*◌, ◌≡◌, refl, List, [], ◌∷◌, Option, none, some, pos, arith}
use hpc_relay.Exec.{returns}
use hpc_relay.Result.{os_error, ok}
use hpc_relay.Sbatch.Guard.{scancel_command, flow_cancellation_guard}
use hpc_relay.Sbatch.Guard.Ends.{GuardEnd, flow_cancellation_guard-GuardEnd}
use hpc_relay.Sbatch.Poll.{poll_completion_once}
use hpc_relay.Sbatch.Poll.Answer.{PollEnd, poll_completion_once-PollEnd}
use hpc_relay.Sbatch.Refresh.{take_lease, try_update_status}
use hpc_relay.Sbatch.Refresh.Commands.{RefreshEnd, try_update_status-RefreshEnd}
use hpc_relay.Sbatch.Refresh.History.{
  ends_at, granted, History, start, section_of, Spaced, leases-Spaced,
}
use hpc_relay.Sbatch.Refresh.Lease.{HasSlot}
use hpc_relay.Sbatch.Variables.{set_status, status_variable}
use hpc_relay.Sbatch.Variables.Board.{
  board_of, Op, sets, deletes, reads, steps, IsQuiet, do_ops, Refines, do_ops-Refines,
}
use hpc_relay.Sbatch.Variables.Stored.{SetStatus, set_status-SetStatus}
use hpc_relay.Sbatch.Wait.{wait_completion_single, is_outage}
use hpc_relay.Sbatch.Wait.Down.{ApiDown, GaveUp, wait_completion_single-GaveUp}
use hpc_relay.Sbatch.Wait.Outage.{time, Ending, wait_completion_single-Ending}
use hpc_relay.Sbatch.World.{slurm, cancelling, to_cancel, other_state, Env, World}
use hpc_relay.Slurm.Types.{running, completed, cancelled}
use hpc_relay.Text.{Text, codes, same}

abbrev hpc_a : Text
hpc_a = codes "a"

abbrev run_1 : Option Text
run_1 = some (codes "run-1")

abbrev run_2 : Option Text
run_2 = some (codes "run-2")

-- The flow run `run-1` is cancelled by its user, the other tasks rest, and each command succeeds.
abbrev signalled_env : Env
signalled_env = record {
  api = λ n. none;
  others = λ n vs. vs;
  flow_run = λ n. to_cancel;
  shell = λ n cmd. returns (ok (record { stdout = []; stderr = []; return_code = pos 0 }));
  clock = λ n. n;
  flow_run_id = run_1;
  flow_name = none;
}

-- Two running jobs, of two flow runs.
abbrev two_jobs : World
two_jobs = record {
  vars =
      status_variable hpc_a (codes "1") (slurm running) run_1 none
      ∷ status_variable hpc_a (codes "2") (slurm running) run_2 none
      ∷ [];
  events = 0;
  issued = [];
  slept = 0;
  ensured = [];
  artifacts = [];
}

-- Only the job of the flow run is cancelled.
guard_run : (flow_cancellation_guard signalled_env hpc_a two_jobs).0 ≡ returns (ok (codes "1" ∷ []))
unfolding flow_cancellation_guard same
guard_run = refl

guard_issues :
    (flow_cancellation_guard signalled_env hpc_a two_jobs).1.issued
    ≡ scancel_command (codes "1" ∷ []) ∷ []
unfolding flow_cancellation_guard same
guard_issues = refl

flow_cancellation_guard-GuardEnd_example :
    GuardEnd signalled_env hpc_a two_jobs (flow_cancellation_guard signalled_env hpc_a two_jobs)
flow_cancellation_guard-GuardEnd_example =
    flow_cancellation_guard-GuardEnd signalled_env hpc_a two_jobs

-- The job of another flow run is answered as cancelled too, though no scancel names it.
other_run_cancelled :
    (poll_completion_once signalled_env hpc_a (codes "2") two_jobs).0
    ≡ returns (some (ok cancelled))
unfolding poll_completion_once
other_run_cancelled = refl

poll_completion_once-PollEnd_example :
    PollEnd signalled_env hpc_a
      (codes "2")
      two_jobs
      (poll_completion_once signalled_env hpc_a (codes "2") two_jobs)
poll_completion_once-PollEnd_example =
    poll_completion_once-PollEnd signalled_env hpc_a (codes "2") two_jobs

try_update_status-RefreshEnd_example :
    RefreshEnd signalled_env hpc_a [] (try_update_status signalled_env hpc_a two_jobs).1.issued
try_update_status-RefreshEnd_example = try_update_status-RefreshEnd signalled_env hpc_a two_jobs

set_status-SetStatus_example :
    SetStatus signalled_env hpc_a
      (codes "2")
      cancelling
      two_jobs
      (set_status signalled_env hpc_a (codes "2") cancelling two_jobs)
set_status-SetStatus_example =
    set_status-SetStatus signalled_env hpc_a (codes "2") cancelling two_jobs

wait_completion_single-Ending_example :
    Ending signalled_env hpc_a
      (codes "1")
      (time signalled_env two_jobs)
      (wait_completion_single signalled_env hpc_a (codes "1") 2 two_jobs)
wait_completion_single-Ending_example =
    wait_completion_single-Ending signalled_env hpc_a (codes "1") 2 two_jobs (λ m n h. h)

-- The server is out of reach.
abbrev down_env : Env
down_env = record signalled_env { api = λ n. some (os_error 111); flow_run = λ n. other_state }

down_env-ApiDown : ApiDown down_env
unfolding is_outage
down_env-ApiDown = record { failure = λ n. os_error 111; fails = λ n. refl; is_out = λ n. refl }

wait_completion_single-GaveUp_example :
    GaveUp down_env
      (time down_env two_jobs)
      (wait_completion_single down_env hpc_a (codes "1") 9 two_jobs)
wait_completion_single-GaveUp_example =
    wait_completion_single-GaveUp down_env hpc_a (codes "1") 9 two_jobs down_env-ApiDown
      (λ m n h. h) (ground arith)

-- Two sections, 30 seconds of sleep apart.
abbrev first_taken : World
first_taken = (take_lease signalled_env hpc_a two_jobs).1

abbrev rested : World
rested = record first_taken { slept = 30 * 1000000 }

signalled_env-HasSlot : HasSlot signalled_env hpc_a
signalled_env-HasSlot n vs = refl

abbrev two_leases : List ℕ
two_leases = 50000006 ∷ 20000002 ∷ []

two_sections :
    History hpc_a
      (take_lease signalled_env hpc_a rested).1.vars
      (time signalled_env (take_lease signalled_env hpc_a rested).1)
      two_leases
unfolding take_lease same status_variable granted ends_at
two_sections =
    section_of signalled_env rested (20000002 ∷ []) 4
      (section_of signalled_env two_jobs [] 0 (start two_jobs.vars 0) (λ m n h. h)
        signalled_env-HasSlot (ground arith))
      (λ m n h. h) signalled_env-HasSlot (ground arith)

leases-Spaced_example : Spaced two_leases
leases-Spaced_example =
    leases-Spaced hpc_a (take_lease signalled_env hpc_a rested).1.vars
      (time signalled_env (take_lease signalled_env hpc_a rested).1) two_leases two_sections

-- A status is written, read and, of the other job, deleted; no other task is at work.
abbrev three_ops : List Op
three_ops =
    sets (codes "1") (slurm completed)
    ∷ reads (codes "1")
    ∷ deletes (codes "2")
    ∷ reads (codes "2")
    ∷ []

signalled_env-IsQuiet : IsQuiet signalled_env
signalled_env-IsQuiet = record { still = λ n vs. refl; up = λ n. refl }

do_ops-Refines_example :
    Refines signalled_env hpc_a
      (steps three_ops (board_of hpc_a two_jobs.vars))
      (do_ops signalled_env hpc_a three_ops two_jobs)
do_ops-Refines_example = do_ops-Refines signalled_env hpc_a signalled_env-IsQuiet three_ops two_jobs
