-- ===== src/Sbatch/World.antt =====
-- The world of a monitoring task. Prefect's server, the other tasks, the clock and the HPC are outside
-- the program: they are the record `Env`, which says what each of them does at each event, events
-- being numbered. A task keeps the Prefect variables as it finds them, and a log of its commands.
use hpc_relay.Base.{ℕ, ◌+◌, ◌*◌, List, [], ◌∷◌, ◌++◌, Option, none, some}
use hpc_relay.Exec.{Outcome, returns, raises, Exec}
use hpc_relay.Result.{Exc, Result}
use hpc_relay.Runner.Types.{Command, CommandResult}
use hpc_relay.Slurm.Types.{SlurmJobId, SlurmJobState}
use hpc_relay.Text.{Text}

-- `SlurmJobState | Literal["CANCELLING"]`
pub data Status : Type 0 where
  slurm : SlurmJobState → Status
  cancelling : Status

-- `_SlurmJobPrefectStatus`
pub record JobStatus : Type 0 where
  pub job_id : SlurmJobId
  pub hpc : Text
  pub status : Status
  pub flow_run_id : Option Text

-- An ISO time, in microseconds, or a text that is none.
pub data Stamp : Type 0 where
  at : ℕ → Stamp
  unreadable : Text → Stamp

-- `_SlurmJobMonitoringLock`
pub record MonitoringLock : Type 0 where
  pub hpc : Text
  pub lease_expires_at : Stamp

-- The value of a Prefect variable: what one of the two adapters accepts, or neither.
pub data Value : Type 0 where
  job_status : JobStatus → Value
  monitoring_lock : MonitoringLock → Value
  malformed : Text → Value

pub record Variable : Type 0 where
  pub name : Text
  pub value : Value
  pub tags : List Text

-- What `client.read_flow_run` comes to.
pub data FlowRead : Type 0 where
  to_cancel : FlowRead
  other_state : FlowRead
  not_found : FlowRead
  broken : Exc → FlowRead

-- What happens at the n-th event.
pub record Env : Type 0 where
  -- the exception of a call of the Prefect API, if it fails
  pub api : ℕ → Option Exc
  -- what the other tasks have made of the variables since the last event
  pub others : ℕ → List Variable → List Variable
  pub flow_run : ℕ → FlowRead
  pub shell : ℕ → Command → Outcome (Result CommandResult)
  -- the time in microseconds, less the time that this task has slept
  pub clock : ℕ → ℕ
  -- `prefect.runtime.flow_run`
  pub flow_run_id : Option Text
  pub flow_name : Option Text

-- A markdown artifact on the page of a task run.
pub record Artifact : Type 0 where
  pub key : Text
  pub markdown : Text
  pub description : Text

pub record World : Type 0 where
  pub vars : List Variable
  pub events : ℕ
  pub issued : List Command
  -- microseconds slept by this task
  pub slept : ℕ
  -- `_ensured_limits`
  pub ensured : List Text
  pub artifacts : List Artifact

-- The state after an event at which the other tasks have left `vs`.
abbrev pub tick : World → List Variable → World
tick w vs = record w { vars = vs; events = w.events + 1 }

module _ (env : Env) where
  -- A call of the API that reads the variables and leaves them as they are.
  unfoldable pub api_read : {A : Type 0} → (List Variable → A) → Exec World A
  api_read f w =
      let vs = env.others w.events w.vars in
      elim (env.api w.events) [
        | none ↦ (returns (f vs), tick w vs)
        | some e ↦ (raises e, tick w vs)
      ]

  -- A call that changes them; one that fails has not.
  unfoldable pub api_write : (List Variable → List Variable) → Exec World (Unit {0})
  api_write f w =
      let vs = env.others w.events w.vars in
      elim (env.api w.events) [
        | none ↦ (returns tt, tick w (f vs))
        | some e ↦ (raises e, tick w vs)
      ]

  -- `_now_utc`
  unfoldable pub now_utc : Exec World ℕ
  now_utc w = (returns (env.clock w.events + w.slept), tick w (env.others w.events w.vars))

  -- asyncio.sleep: the others act meanwhile
  unfoldable pub sleep : ℕ → Exec World (Unit {0})
  sleep secs w = (
    returns tt,
    record (tick w (env.others w.events w.vars)) { slept = w.slept + secs * 1000000 },
  )

  -- `run_cmd` with its context
  unfoldable pub run_cmd : Command → Exec World (Result CommandResult)
  run_cmd cmd w = (
    env.shell w.events cmd,
    record (tick w (env.others w.events w.vars)) { issued = w.issued ++ cmd ∷ [] },
  )

  unfoldable pub read_flow_run : Exec World FlowRead
  read_flow_run w = (returns (env.flow_run w.events), tick w (env.others w.events w.vars))

  -- `acreate_markdown_artifact`; one with the key of another takes its place on the page.
  unfoldable pub create_artifact : Artifact → Exec World (Unit {0})
  create_artifact a w =
      let u = tick w (env.others w.events w.vars) in
      elim (env.api w.events) [
        | none ↦ (returns tt, record u { artifacts = w.artifacts ++ a ∷ [] })
        | some e ↦ (raises e, u)
      ]
