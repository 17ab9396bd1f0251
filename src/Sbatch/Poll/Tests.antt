-- ===== src/Sbatch/Poll/Tests.antt =====
-- Rounds of `_poll_completion_once` with a server and an HPC that are written out here.
use hpc_relay.Base.{◌≡◌, refl, sym, ap, ◌∙◌, In, at_head, in_tail, [], ◌∷◌, none, some, pos}
use hpc_relay.Exec.{returns}
use hpc_relay.Result.{ok}
use hpc_relay.Runner.Types.{CommandResult}
use hpc_relay.Sbatch.Poll.{poll_completion_once}
use hpc_relay.Sbatch.Poll.OnBoard.{HasNoSignal, Polled, poll_completion_once-Polled}
use hpc_relay.Sbatch.Poll.Told.{Reports, IsAnswered, poll_completion_once-IsAnswered}
use hpc_relay.Sbatch.Refresh.Asked.{asked_ids, LeaseUntagged}
use hpc_relay.Sbatch.Refresh.Recorded.{lease_var_name-differ}
use hpc_relay.Sbatch.Variables.{is_expired, lease_var_name, status_variable}
use hpc_relay.Sbatch.Variables.Board.{IsQuiet}
use hpc_relay.Sbatch.World.{slurm, other_state, Env, World}
use hpc_relay.Slurm.Types.{SlurmJobInfo, running, completed}
use hpc_relay.Text.{Text, codes, same}

-- The flow run goes on, the other tasks rest, and sacct knows one job.
abbrev sacct_output : CommandResult
sacct_output = record { stdout = codes "42|COMPLETED\n"; stderr = []; return_code = pos 0 }

abbrev calm_env : Env
calm_env = record {
  api = λ n. none;
  others = λ n vs. vs;
  flow_run = λ n. other_state;
  shell = λ n cmd. returns (ok sacct_output);
  clock = λ n. n;
  flow_run_id = some (codes "run-1");
  flow_name = none;
}

abbrev hpc_a : Text
hpc_a = codes "a"

abbrev job_42 : Text
job_42 = codes "42"

abbrev one_job : World
one_job = record {
  vars = status_variable hpc_a job_42 (slurm running) (some (codes "run-1")) none ∷ [];
  events = 0;
  issued = [];
  slept = 0;
  ensured = [];
  artifacts = [];
}

calm_env-IsQuiet : IsQuiet calm_env
calm_env-IsQuiet = record { still = λ n vs. refl; up = λ n. refl }

calm_env-HasNoSignal : HasNoSignal calm_env
unfolding hpc_relay.Sbatch.Guard.is_signal
calm_env-HasNoSignal = record { unsignalled = λ n. refl }

one_job_asked : asked_ids hpc_a one_job.vars ≡ job_42 ∷ []
unfolding hpc_relay.Sbatch.Variables.running_ids hpc_relay.Sbatch.Variables.payloads_in
    hpc_relay.Sbatch.Variables.has_tags hpc_relay.Sbatch.Variables.active_tags status_variable same
    hpc_relay.Sbatch.Variables.validate_status
one_job_asked = refl

poll_completion_once-Polled_example :
    Polled calm_env hpc_a job_42 one_job (poll_completion_once calm_env hpc_a job_42 one_job)
poll_completion_once-Polled_example =
    poll_completion_once-Polled calm_env hpc_a calm_env-IsQuiet calm_env-HasNoSignal job_42 one_job

one_job-LeaseUntagged : LeaseUntagged hpc_a one_job.vars
unfolding status_variable
one_job-LeaseUntagged u (at_head q) e =
    absurd (lease_var_name-differ hpc_a job_42 (ap (λ x. x.name) (sym q) ∙ e))
one_job-LeaseUntagged u (in_tail m) e = elim m [ ]

only_42 :
    (i : SlurmJobInfo)
    → In i (record { job_id = job_42; state = completed } ∷ [])
    → i.job_id ≡ job_42
    → i.state ≡ completed
only_42 i (at_head q) e = ap (λ x. x.state) q
only_42 i (in_tail m) e = elim m [ ]

calm_env-Reports : Reports calm_env (asked_ids hpc_a one_job.vars) job_42 completed
unfolding hpc_relay.Slurm.Sacct.read_states hpc_relay.Slurm.Sacct.read_rows
    hpc_relay.Text.Split.split_lines hpc_relay.Slurm.Sacct.read_row hpc_relay.Text.Split.partition
    hpc_relay.Sbatch.Variables.running_ids hpc_relay.Sbatch.Variables.payloads_in
    hpc_relay.Sbatch.Variables.has_tags hpc_relay.Sbatch.Variables.active_tags status_variable same
    hpc_relay.Sbatch.Variables.validate_status hpc_relay.Text.Split.split_blank
    hpc_relay.Slurm.Types.state_of hpc_relay.Slurm.Sacct.find
calm_env-Reports = record {
  res = sacct_output;
  infos = record { job_id = job_42; state = completed } ∷ [];
  printed = λ n. refl;
  reads_as = refl;
  has_state = only_42;
}

poll_completion_once-IsAnswered_example : IsAnswered calm_env hpc_a job_42 completed one_job
unfolding hpc_relay.Slurm.Types.is_terminal_state is_expired hpc_relay.Sbatch.Variables.get_var same
    lease_var_name status_variable hpc_relay.Sbatch.Variables.running_ids
    hpc_relay.Sbatch.Variables.payloads_in hpc_relay.Sbatch.Variables.has_tags
    hpc_relay.Sbatch.Variables.validate_status
poll_completion_once-IsAnswered_example =
    poll_completion_once-IsAnswered calm_env hpc_a job_42 completed one_job calm_env-IsQuiet
      calm_env-HasNoSignal refl (λ n. refl) one_job-LeaseUntagged (at_head refl) calm_env-Reports
