-- ===== src/Sbatch/Variables.antt =====
-- The helpers of _sbatch.py on Prefect variables: names, statuses and the lease.
pub mod Stored
pub mod Lookup
pub mod Board
use hpc_relay.Base.{
  ℕ, ◌+◌, ◌*◌, Bool, true, false, not, ◌&&◌, List, [], ◌∷◌, ◌++◌, Option, none, some, if◌then◌else◌,
  leb, all, any, take,
}
use hpc_relay.Exec.{Outcome, returns, raises, Exec, pure, ◌>>=◌, ◌>>◌}
use hpc_relay.Sbatch.World.{
  Status, slurm, cancelling, JobStatus, Stamp, at, unreadable, MonitoringLock, Value, job_status,
  monitoring_lock, malformed, Variable, Env, World, api_read, api_write, now_utc,
}
use hpc_relay.Slurm.Types.{SlurmJobId}
use hpc_relay.Text.{Text, codes, same}

-- `_LEASE_DURATION`, in microseconds
abbrev pub lease_duration : ℕ
lease_duration = 20 * 1000000

-- `_PRFEFECT_NUM_READS`
abbrev pub num_reads : ℕ
num_reads = 200

-- f"sbatch_{hpc}_{job_id}"
unfoldable pub status_var_name : Text → SlurmJobId → Text
status_var_name hpc job_id = codes "sbatch_" ++ (hpc ++ (b'_' ∷ job_id))

-- f"_sbatch_monitoring_{hpc}"
unfoldable pub lease_var_name : Text → Text
lease_var_name hpc = codes "_sbatch_monitoring_" ++ hpc

-- Variable.aget, Variable.aset with overwrite, Variable.aunset, on the list of variables
unfoldable pub get_var : Text → List Variable → Option Value
get_var name [] = none
get_var name (v ∷ vs) = if same name v.name then some v.value else get_var name vs

unfoldable pub set_var : Variable → List Variable → List Variable
set_var v [] = v ∷ []
set_var v (u ∷ vs) = if same v.name u.name then v ∷ vs else u ∷ set_var v vs

unfoldable pub unset_var : Text → List Variable → List Variable
unset_var name [] = []
unset_var name (u ∷ vs) =
    let rest = unset_var name vs in if same name u.name then rest else u ∷ rest

-- `_STATUS_ADAPTER.validate_python`, where `none` is a `ValidationError`
unfoldable pub validate_status : Option Value → Option JobStatus
validate_status (some (job_status p)) = some p
validate_status _ = none

-- A text that is false is as good as none.
unfoldable pub truthy : Option Text → Option Text
truthy none = none
truthy (some []) = none
truthy (some (c ∷ s)) = some (c ∷ s)

or_else : Option Text → Option Text → Option Text
or_else (some t) other = some t
or_else none other = other

-- The flow run that a payload is stamped with: that of the existing one, or the current one.
unfoldable pub owner : Option JobStatus → Option Text → Option Text
unfolding or_else truthy
owner none current = truthy current
owner (some p) current = or_else (truthy p.flow_run_id) (truthy current)

abbrev flow_tag : Text → Option Text → List Text
flow_tag prefix none = []
flow_tag prefix (some t) = (prefix ++ t) ∷ []

unfoldable pub active_tags : Text → List Text
active_tags hpc = (codes "hpc:" ++ hpc) ∷ codes "status:active" ∷ []

unfoldable pub status_variable : Text → SlurmJobId → Status → Option Text → Option Text → Variable
unfolding status_var_name active_tags truthy
status_variable hpc job_id status flow_run_id flow_name = record {
  name = status_var_name hpc job_id;
  value =
      job_status
        (record { job_id = job_id; hpc = hpc; status = status; flow_run_id = flow_run_id });
  tags =
      active_tags hpc
      ++ (flow_tag (codes "flow:") (truthy flow_name)
          ++ flow_tag (codes "flow_run:") (truthy flow_run_id));
}

-- needed.issubset(tags)
unfoldable pub has_tags : List Text → List Text → Bool
has_tags needed tags = all (λ t. any (same t) tags) needed

-- The loop of `_list_status_payloads`: malformed values are skipped.
unfoldable pub payloads_in : Text → List Variable → List JobStatus
payloads_in hpc [] = []
payloads_in hpc (v ∷ vs) =
    let rest = payloads_in hpc vs in
    if has_tags (active_tags hpc) v.tags
    then elim (validate_status (some v.value)) [ none ↦ rest | some p ↦ p ∷ rest ]
    else rest

-- [p.job_id for p in payloads if p.status != "CANCELLING"]
unfoldable pub running_ids : List JobStatus → List SlurmJobId
running_ids [] = []
running_ids (p ∷ ps) = elim p.status [
  | cancelling ↦ running_ids ps
  | slurm s ↦ p.job_id ∷ running_ids ps
]

-- Missing, malformed, unreadable or past: the tests of `_lease_expired` at the time `now`.
unfoldable pub is_expired : Option Value → ℕ → Bool
is_expired (some (monitoring_lock l)) now = elim l.lease_expires_at [
  | unreadable t ↦ true
  | at t ↦ leb t now
]
is_expired _ now = true

module _ (env : Env) where
  unfoldable pub read_status_payload : Text → SlurmJobId → Exec World (Option JobStatus)
  unfolding api_read get_var validate_status status_var_name
  read_status_payload hpc job_id =
      api_read env (λ vs. validate_status (get_var (status_var_name hpc job_id) vs))

  unfoldable pub set_status : Text → SlurmJobId → Status → Exec World (Unit {0})
  unfolding read_status_payload api_write set_var status_variable owner
  set_status hpc job_id status = do
    existing ← read_status_payload hpc job_id
    api_write env
        (set_var (status_variable hpc job_id status (owner existing env.flow_run_id) env.flow_name))

  unfoldable pub read_status : Text → SlurmJobId → Exec World (Option Status)
  unfolding read_status_payload
  read_status hpc job_id = do
    parsed ← read_status_payload hpc job_id
    pure (elim parsed [ none ↦ none | some p ↦ some p.status ])

  unfoldable pub delete_status : Text → SlurmJobId → Exec World (Unit {0})
  unfolding api_write unset_var status_var_name
  delete_status hpc job_id = api_write env (unset_var (status_var_name hpc job_id))

  unfoldable pub list_status_payloads : Text → Exec World (List JobStatus)
  unfolding api_read payloads_in has_tags active_tags
  list_status_payloads hpc = api_read env (λ vs. payloads_in hpc (take num_reads vs))

  unfoldable pub list_running_job_ids : Text → Exec World (List SlurmJobId)
  unfolding list_status_payloads running_ids
  list_running_job_ids hpc = do payloads ← list_status_payloads hpc; pure (running_ids payloads)

  unfoldable pub lease_expired : Text → Exec World Bool
  unfolding api_read get_var lease_var_name now_utc is_expired
  lease_expired hpc = do
    raw ← api_read env (get_var (lease_var_name hpc))
    now ← now_utc env
    pure (is_expired raw now)

  unfoldable pub write_lease : Text → Exec World (Unit {0})
  unfolding api_write set_var lease_var_name now_utc
  write_lease hpc = do
    now ← now_utc env
    api_write env (
        set_var (record {
          name = lease_var_name hpc;
          value =
              monitoring_lock (record { hpc = hpc; lease_expires_at = at (now + lease_duration) });
          tags = [];
        }))
