-- ===== src/Slurm/Types.antt =====
-- The data of hpc_relay/slurm.py: a job, its submission, its states.
use hpc_relay.Base.{Bool, true, false, List, [], ◌∷◌, Option, none, some, if◌then◌else◌}
use hpc_relay.FilePath.{FilePath, StrOrPath}
use hpc_relay.Runner.Types.{CommandLine}
use hpc_relay.Text.{Text, codes, same}

abbrev pub SlurmJobId : Type 0
SlurmJobId = Text

-- `account: str | Literal["auto"] | None`: "auto" is told apart by its text, in `resolve_account`.
pub record SlurmJob : Type 0 where
  pub job_name : Text
  pub stdout : Option StrOrPath
  pub stderr : Option StrOrPath
  pub script_path : Option StrOrPath
  pub command : Option CommandLine
  pub working_directory : Option StrOrPath
  pub submission_directory : Option StrOrPath
  pub time_limit : Option Text
  pub slurm_options : Option (List (Text × Text))
  pub account : Option Text

pub record SlurmSubmissionResult : Type 0 where
  pub job_id : SlurmJobId
  pub stdout : FilePath
  pub stderr : FilePath

pub data SlurmJobState : Type 0 where
  boot_fail cancelled completed deadline failed node_fail out_of_memory : SlurmJobState
  pending preempted running suspended timeout : SlurmJobState
  completing configuring expediting launch_failed power_up_node reconfig_fail : SlurmJobState
  requeued requeue_fed requeue_hold resizing resv_del_hold revoked : SlurmJobState
  signaling special_exit stage_out stopped update_db : SlurmJobState

-- `get_args(SlurmJobState)`, each with its state.
abbrev pub known_states : List (Text × SlurmJobState)
known_states =
    (codes "BOOT_FAIL", boot_fail)
    ∷ (codes "CANCELLED", cancelled)
    ∷ (codes "COMPLETED", completed)
    ∷ (codes "DEADLINE", deadline)
    ∷ (codes "FAILED", failed)
    ∷ (codes "NODE_FAIL", node_fail)
    ∷ (codes "OUT_OF_MEMORY", out_of_memory)
    ∷ (codes "PENDING", pending)
    ∷ (codes "PREEMPTED", preempted)
    ∷ (codes "RUNNING", running)
    ∷ (codes "SUSPENDED", suspended)
    ∷ (codes "TIMEOUT", timeout)
    ∷ (codes "COMPLETING", completing)
    ∷ (codes "CONFIGURING", configuring)
    ∷ (codes "EXPEDITING", expediting)
    ∷ (codes "LAUNCH_FAILED", launch_failed)
    ∷ (codes "POWER_UP_NODE", power_up_node)
    ∷ (codes "RECONFIG_FAIL", reconfig_fail)
    ∷ (codes "REQUEUED", requeued)
    ∷ (codes "REQUEUE_FED", requeue_fed)
    ∷ (codes "REQUEUE_HOLD", requeue_hold)
    ∷ (codes "RESIZING", resizing)
    ∷ (codes "RESV_DEL_HOLD", resv_del_hold)
    ∷ (codes "REVOKED", revoked)
    ∷ (codes "SIGNALING", signaling)
    ∷ (codes "SPECIAL_EXIT", special_exit)
    ∷ (codes "STAGE_OUT", stage_out)
    ∷ (codes "STOPPED", stopped)
    ∷ (codes "UPDATE_DB", update_db)
    ∷ []

find_state : Text → List (Text × SlurmJobState) → Option SlurmJobState
find_state t [] = none
find_state t ((name, s) ∷ rest) = if same t name then some s else find_state t rest

-- `token in _KNOWN_STATES`, with the state that the cast makes of it.
unfoldable pub state_of : Text → Option SlurmJobState
unfolding find_state same
state_of t = find_state t known_states

-- `state in _TERMINAL_STATES`
unfoldable pub is_terminal_state : SlurmJobState → Bool
is_terminal_state boot_fail = true
is_terminal_state cancelled = true
is_terminal_state completed = true
is_terminal_state deadline = true
is_terminal_state failed = true
is_terminal_state node_fail = true
is_terminal_state out_of_memory = true
is_terminal_state preempted = true
is_terminal_state timeout = true
is_terminal_state revoked = true
is_terminal_state launch_failed = true
is_terminal_state _ = false

pub record SlurmJobInfo : Type 0 where
  pub job_id : SlurmJobId
  pub state : SlurmJobState

-- `SlurmJobResult` of hpc_relay/_sbatch.py
pub record SlurmJobResult : Type 0 where
  pub job_id : SlurmJobId
  pub status : SlurmJobState
  pub submission : SlurmSubmissionResult
