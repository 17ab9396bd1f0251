-- ===== src/Sbatch/Wait/Time.antt =====
-- Time goes forward: no action of a poll takes back an event or a second slept.
use hpc_relay.Base.{ℕ, ◌≤◌, List, [], ◌∷◌, Option, none, some, arith, any}
use hpc_relay.Exec.{Exec, pure, ◌>>◌}
use hpc_relay.Exec.Keeps.{
  Keeps, Keeps-pure, Keeps-raise, Keeps-if, Keeps-bind, Keeps-then, Keeps-catch, keeps_rules,
}
use hpc_relay.Result.{Result, ok, err}
use hpc_relay.Runner.Types.{Command, CommandResult}
use hpc_relay.Sbatch.Guard.{
  is_signal, own_ids, mark_all, cancel_all, fold_jobs, guard_in, flow_cancellation_guard,
}
use hpc_relay.Sbatch.Poll.{conclude, after_guard, poll_completion_once}
use hpc_relay.Sbatch.Refresh.{
  remember, ensure_concurrency_limit, with_slot, take_lease, store_states, store_answer,
  refresh_jobs, refresh, try_update_status,
}
use hpc_relay.Sbatch.Variables.{
  read_status_payload, set_status, read_status, delete_status, list_status_payloads,
  list_running_job_ids, lease_expired, write_lease,
}
use hpc_relay.Sbatch.World.{
  Status, slurm, cancelling, Variable, Env, World, api_read, api_write, now_utc, sleep, run_cmd,
  read_flow_run,
}
use hpc_relay.Slurm.Sacct.{answer, get_slurm_job_states}
use hpc_relay.Slurm.Types.{SlurmJobId, SlurmJobInfo}
use hpc_relay.Text.{Text, same}

module _ (env : Env) (n t : ℕ) where
  pub record Since (w : World) : Type 0 where
    pub events_since : n ≤ w.events
    pub slept_since : t ≤ w.slept

  api_read-Since : {A : Type 0} (f : List Variable → A) → Keeps Since (api_read env f)
  unfolding api_read
  api_read-Since f = record { at = λ w h. ground arith }

  api_write-Since : (f : List Variable → List Variable) → Keeps Since (api_write env f)
  unfolding api_write
  api_write-Since f = record { at = λ w h. ground arith }

  pub now_utc-Since : Keeps Since (now_utc env)
  unfolding now_utc
  now_utc-Since = record { at = λ w h. ground arith }

  sleep-Since : (secs : ℕ) → Keeps Since (sleep env secs)
  unfolding sleep
  sleep-Since secs = record { at = λ w h. ground arith }

  run_cmd-Since : (cmd : Command) → Keeps Since (run_cmd env cmd)
  unfolding run_cmd
  run_cmd-Since cmd = record { at = λ w h. ground arith }

  read_flow_run-Since : Keeps Since (read_flow_run env)
  unfolding read_flow_run
  read_flow_run-Since = record { at = λ w h. ground arith }

  ruleset act_rules = (
    keeps_rules, api_read-Since, api_write-Since, now_utc-Since, sleep-Since, run_cmd-Since,
    read_flow_run-Since,
  )

  read_status_payload-Since :
      (hpc : Text) (id : SlurmJobId) → Keeps Since (read_status_payload env hpc id)
  unfolding read_status_payload
  read_status_payload-Since hpc id = search act_rules

  set_status-Since :
      (hpc : Text) (id : SlurmJobId) (status : Status) → Keeps Since (set_status env hpc id status)
  unfolding set_status
  set_status-Since hpc id status = search act_rules

  read_status-Since : (hpc : Text) (id : SlurmJobId) → Keeps Since (read_status env hpc id)
  unfolding read_status
  read_status-Since hpc id = search act_rules

  delete_status-Since : (hpc : Text) (id : SlurmJobId) → Keeps Since (delete_status env hpc id)
  unfolding delete_status
  delete_status-Since hpc id = search act_rules

  list_status_payloads-Since : (hpc : Text) → Keeps Since (list_status_payloads env hpc)
  unfolding list_status_payloads
  list_status_payloads-Since hpc = search act_rules

  list_running_job_ids-Since : (hpc : Text) → Keeps Since (list_running_job_ids env hpc)
  unfolding list_running_job_ids
  list_running_job_ids-Since hpc = search act_rules

  lease_expired-Since : (hpc : Text) → Keeps Since (lease_expired env hpc)
  unfolding lease_expired
  lease_expired-Since hpc = search act_rules

  write_lease-Since : (hpc : Text) → Keeps Since (write_lease env hpc)
  unfolding write_lease
  write_lease-Since hpc = search act_rules

  mark_all-Since : (hpc : Text) (ids : List SlurmJobId) → Keeps Since (mark_all env hpc ids)
  unfolding mark_all
  mark_all-Since hpc [] = Keeps-pure _
  mark_all-Since hpc (id ∷ ids) =
      Keeps-then _ _ (set_status-Since hpc id cancelling) (mark_all-Since hpc ids)

  cancel_all-Since : (hpc : Text) (ids : List SlurmJobId) → Keeps Since (cancel_all env hpc ids)
  unfolding cancel_all
  cancel_all-Since hpc [] = Keeps-pure _
  cancel_all-Since hpc (id ∷ ids) = Keeps-bind _ _ (run_cmd-Since _) (λ res. Keeps-pure _)

  fold_jobs-Since : (hpc run : Text) → Keeps Since (fold_jobs env hpc run)
  unfolding fold_jobs
  fold_jobs-Since hpc run = Keeps-bind _ _ (list_status_payloads-Since hpc) (λ payloads.
      Keeps-then _ _ (mark_all-Since hpc (own_ids run payloads))
        (cancel_all-Since hpc (own_ids run payloads)))

  guard_in-Since : (hpc : Text) (run : Option Text) → Keeps Since (guard_in env hpc run)
  unfolding guard_in
  guard_in-Since hpc none = Keeps-pure _
  guard_in-Since hpc (some run) =
      Keeps-bind _ _ read_flow_run-Since
        (λ answer. Keeps-if (is_signal answer) _ _ (fold_jobs-Since hpc run) (Keeps-pure (ok [])))

  flow_cancellation_guard-Since : (hpc : Text) → Keeps Since (flow_cancellation_guard env hpc)
  unfolding flow_cancellation_guard
  flow_cancellation_guard-Since hpc = guard_in-Since hpc _

  remember-Since : (name : Text) → Keeps Since (remember env name)
  unfolding remember
  remember-Since name = record {
    at = λ w h. record { events_since = h.events_since; slept_since = h.slept_since };
  }

  ensure_concurrency_limit-Since : (name : Text) → Keeps Since (ensure_concurrency_limit env name)
  unfolding ensure_concurrency_limit
  ensure_concurrency_limit-Since name = record {
    at = λ w.
        (Keeps-if (any (same name) w.ensured) (pure tt)
            (api_write env (λ vs. vs) >> remember env name) (Keeps-pure tt)
            (Keeps-then _ _ (api_write-Since (λ vs. vs)) (remember-Since name))).at
          w;
  }

  with_slot-Since :
      {A : Type 0} (body : Exec World A) → Keeps Since body → Keeps Since (with_slot env body)
  unfolding with_slot
  with_slot-Since body kept = Keeps-then _ _ (api_write-Since (λ vs. vs)) (
      Keeps-catch body _ _ kept (λ a. Keeps-then _ _ (sleep-Since 0) (Keeps-pure a))
        (λ e. Keeps-then _ _ (sleep-Since 0) (Keeps-raise e)))

  take_lease-Since : (hpc : Text) → Keeps Since (take_lease env hpc)
  unfolding take_lease
  take_lease-Since hpc = search (act_rules, lease_expired-Since, write_lease-Since)

  store_states-Since :
      (hpc : Text) (infos : List SlurmJobInfo) → Keeps Since (store_states env hpc infos)
  unfolding store_states
  store_states-Since hpc [] = Keeps-pure tt
  store_states-Since hpc (i ∷ infos) =
      Keeps-then _ _ (set_status-Since hpc i.job_id (slurm i.state)) (store_states-Since hpc infos)

  store_answer-Since :
      (hpc : Text) (r : Result (List SlurmJobInfo)) → Keeps Since (store_answer env hpc r)
  unfolding store_answer
  store_answer-Since hpc (err e) = Keeps-pure tt
  store_answer-Since hpc (ok infos) = store_states-Since hpc infos

  answer-Since :
      (ids : List SlurmJobId) (r : Result CommandResult) → Keeps Since (answer (run_cmd env) ids r)
  unfolding answer
  answer-Since ids (err e) = record { at = λ w h. h }
  answer-Since ids (ok res) = record { at = λ w h. h }

  get_slurm_job_states-Since :
      (ids : List SlurmJobId) → Keeps Since (get_slurm_job_states (run_cmd env) ids)
  unfolding get_slurm_job_states
  get_slurm_job_states-Since [] = search act_rules
  get_slurm_job_states-Since (id ∷ ids) = search (act_rules, answer-Since)

  refresh_jobs-Since : (hpc : Text) (ids : List SlurmJobId) → Keeps Since (refresh_jobs env hpc ids)
  unfolding refresh_jobs
  refresh_jobs-Since hpc [] = search act_rules
  refresh_jobs-Since hpc (id ∷ ids) =
      search (act_rules, get_slurm_job_states-Since, store_answer-Since)

  refresh-Since : (hpc : Text) → Keeps Since (refresh env hpc)
  unfolding refresh
  refresh-Since hpc = search (act_rules, list_running_job_ids-Since, refresh_jobs-Since)

  try_update_status-Since : (hpc : Text) → Keeps Since (try_update_status env hpc)
  unfolding try_update_status
  try_update_status-Since hpc =
      search
        (
          act_rules, lease_expired-Since, ensure_concurrency_limit-Since, with_slot-Since,
          take_lease-Since, refresh-Since,
        )
        depth 9

  conclude-Since :
      (hpc : Text) (id : SlurmJobId) (status : Option Status)
      → Keeps Since (conclude env hpc id status)
  unfolding conclude
  conclude-Since hpc id none = search (act_rules, set_status-Since)
  conclude-Since hpc id (some cancelling) = search act_rules
  conclude-Since hpc id (some (slurm state)) = search act_rules

  after_guard-Since :
      (hpc : Text) (id : SlurmJobId) (r : Result (List SlurmJobId))
      → Keeps Since (after_guard env hpc id r)
  unfolding after_guard
  after_guard-Since hpc id (err e) = search act_rules
  after_guard-Since hpc id (ok (j ∷ js)) = search act_rules
  after_guard-Since hpc id (ok []) =
      search (act_rules, try_update_status-Since, read_status-Since, conclude-Since)

  pub poll_completion_once-Since :
      (hpc : Text) (id : SlurmJobId) → Keeps Since (poll_completion_once env hpc id)
  unfolding poll_completion_once
  poll_completion_once-Since hpc id =
      search (act_rules, flow_cancellation_guard-Since, after_guard-Since)
