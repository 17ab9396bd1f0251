-- ===== src/Sbatch/Refresh/Commands.antt =====
-- The commands that `_try_update_status` issues.
use hpc_relay.Base.{
  ℕ, In, at_head, in_tail, ◌≡◌, ◌≢◌, refl, sym, ap, Bool, true, false, not, List, [], ◌∷◌, ◌++◌,
  any, if◌then◌else◌, arith,
}
use hpc_relay.Exec.{Outcome, returns, raises, Exec, pure, ◌>>=◌, ◌>>◌, and_then}
use hpc_relay.Exec.Keeps.{Keeps, Keeps-pure, Keeps-if, Keeps-then, keeps_rules}
use hpc_relay.Result.{Result, ok, err}
use hpc_relay.Runner.Types.{Command, CommandResult}
use hpc_relay.Sbatch.Guard.Commands.{
  HasIssued, api_read-HasIssued, api_write-HasIssued, set_status-HasIssued,
  list_status_payloads-HasIssued,
}
use hpc_relay.Sbatch.Refresh.{
  remember, ensure_concurrency_limit, with_slot, take_lease, store_states, store_answer,
  refresh_jobs, refresh, try_update_status, limit_name,
}
use hpc_relay.Sbatch.Variables.{
  running_ids, list_status_payloads, list_running_job_ids, lease_expired, write_lease,
}
use hpc_relay.Sbatch.World.{
  Status, slurm, cancelling, JobStatus, Env, World, api_write, now_utc, sleep, run_cmd,
}
use hpc_relay.Slurm.Sacct.{answer, sacct_command, get_slurm_job_states}
use hpc_relay.Slurm.Types.{SlurmJobId, SlurmJobInfo}
use hpc_relay.Text.{Text, same}

-- `id` is the id of a payload that is not `CANCELLING`.
pub IsRunningIn : List JobStatus → SlurmJobId → Type 0
IsRunningIn payloads id =
    (p : JobStatus) × (In p payloads × (p.job_id ≡ id) × (p.status ≢ cancelling))

running_ids-IsRunningIn :
    (payloads : List JobStatus) (id : SlurmJobId)
    → In id (running_ids payloads)
    → IsRunningIn payloads id
unfolding running_ids IsRunningIn
running_ids-IsRunningIn [] id i = elim i [ ]
running_ids-IsRunningIn (p ∷ ps) id i = go p.status refl (running_ids-IsRunningIn ps id)
  where
    later : IsRunningIn ps id → IsRunningIn (p ∷ ps) id
    later (q, (m, e, s)) = (q, (in_tail m, e, s))

    go :
        (s : Status)
        → p.status ≡ s
        → (In id (running_ids ps) → IsRunningIn ps id)
        → IsRunningIn (p ∷ ps) id
    go cancelling e ih = later (ih (rw e at i))
    go (slurm s) e ih = here (rw e at i)
      where
        here : In id (p.job_id ∷ running_ids ps) → IsRunningIn (p ∷ ps) id
        here (at_head q) = (p, (at_head refl, sym q, λ c. cc))
        here (in_tail m) = later (ih m)

module _ (env : Env) (cmds : List Command) where
  now_utc-HasIssued : Keeps (HasIssued cmds) (now_utc env)
  unfolding now_utc
  now_utc-HasIssued = record { at = λ w h. ground arith }

  sleep-HasIssued : (secs : ℕ) → Keeps (HasIssued cmds) (sleep env secs)
  unfolding sleep
  sleep-HasIssued secs = record { at = λ w h. ground arith }

  remember-HasIssued : (name : Text) → Keeps (HasIssued cmds) (remember env name)
  unfolding remember
  remember-HasIssued name = record { at = λ w h. record { issued_are = h.issued_are } }

  ruleset rules = (
    keeps_rules, api_read-HasIssued, api_write-HasIssued, now_utc-HasIssued, sleep-HasIssued,
    set_status-HasIssued,
  )

  lease_expired-HasIssued : (hpc : Text) → Keeps (HasIssued cmds) (lease_expired env hpc)
  unfolding lease_expired
  lease_expired-HasIssued hpc = search rules

  write_lease-HasIssued : (hpc : Text) → Keeps (HasIssued cmds) (write_lease env hpc)
  unfolding write_lease
  write_lease-HasIssued hpc = search rules

  ensure_concurrency_limit-HasIssued :
      (name : Text) → Keeps (HasIssued cmds) (ensure_concurrency_limit env name)
  unfolding ensure_concurrency_limit
  ensure_concurrency_limit-HasIssued name = record {
    at = λ w.
        (Keeps-if (any (same name) w.ensured) (pure tt)
            (api_write env (λ vs. vs) >> remember env name) (Keeps-pure tt)
            (Keeps-then _ _ (api_write-HasIssued env cmds (λ vs. vs)) (remember-HasIssued name))).at
          w;
  }

  take_lease-HasIssued : (hpc : Text) → Keeps (HasIssued cmds) (with_slot env (take_lease env hpc))
  unfolding with_slot take_lease
  take_lease-HasIssued hpc = search (rules, lease_expired-HasIssued, write_lease-HasIssued) depth 9

  store_states-HasIssued :
      (hpc : Text) (infos : List SlurmJobInfo) → Keeps (HasIssued cmds) (store_states env hpc infos)
  unfolding store_states
  store_states-HasIssued hpc [] = search rules
  store_states-HasIssued hpc (i ∷ infos) =
      Keeps-then _ _ (set_status-HasIssued env cmds hpc i.job_id (slurm i.state))
        (store_states-HasIssued hpc infos)

  store_answer-HasIssued :
      (hpc : Text) (r : Result (List SlurmJobInfo))
      → Keeps (HasIssued cmds) (store_answer env hpc r)
  unfolding store_answer
  store_answer-HasIssued hpc (err e) = search rules
  store_answer-HasIssued hpc (ok infos) = store_states-HasIssued hpc infos

  answer-HasIssued :
      (ids : List SlurmJobId) (r : Result CommandResult)
      → Keeps (HasIssued cmds) (answer (run_cmd env) ids r)
  unfolding answer
  answer-HasIssued ids (err e) = record { at = λ w h. h }
  answer-HasIssued ids (ok res) = record { at = λ w h. h }

  read_and_store-HasIssued :
      (hpc : Text) (ids : List SlurmJobId) (r : Result CommandResult)
      → Keeps (HasIssued cmds) (answer (run_cmd env) ids r >>= store_answer env hpc)
  read_and_store-HasIssued hpc ids r = search (rules, answer-HasIssued, store_answer-HasIssued)

-- The commands after a refresh that began when `cmds` were issued.
pub data RefreshEnd (env : Env) (hpc : Text) (cmds : List Command) : List Command → Type 0 where
  silent : RefreshEnd env hpc cmds cmds
  asked :
      (id : SlurmJobId) (ids : List SlurmJobId) (payloads : List JobStatus) (l m : World)
      → list_status_payloads env hpc l ≡ (returns payloads, m)
      → ((j : SlurmJobId) → In j (id ∷ ids) → IsRunningIn payloads j)
      → RefreshEnd env hpc cmds (cmds ++ sacct_command (id ∷ ids) ∷ [])

record Refreshes {A : Type 0} (env : Env) (hpc : Text) (cmds : List Command) (m : Exec World A)
    : Type 0 where
  at : (w : World) → HasIssued cmds w → RefreshEnd env hpc cmds (m w).1.issued

module _ (env : Env) (hpc : Text) (cmds : List Command) where
  Refreshes-Keeps :
      {A : Type 0} (m : Exec World A) → Keeps (HasIssued cmds) m → Refreshes env hpc cmds m
  Refreshes-Keeps m k = record { at = λ w h. rw ((k.at w h).issued_are) silent }

  Refreshes-bind :
      {A B : Type 0} (m : Exec World A) (f : A → Exec World B)
      → Keeps (HasIssued cmds) m
      → ((a : A) → Refreshes env hpc cmds (f a))
      → Refreshes env hpc cmds (m >>= f)
  Refreshes-bind m f k goes_on = record { at = λ w h. go (m w) (k.at w h) }
    where
      go :
          (o : Outcome _ × World)
          → HasIssued cmds o.1
          → RefreshEnd env hpc cmds (and_then o f).1.issued
      go (returns a, t) h = (goes_on a).at t h
      go (raises e, t) h = rw (h.issued_are) silent

  Refreshes-if :
      {A : Type 0} (b : Bool) (m n : Exec World A)
      → Refreshes env hpc cmds m
      → Refreshes env hpc cmds n
      → Refreshes env hpc cmds (if b then m else n)
  Refreshes-if true m n rm rn = rm
  Refreshes-if false m n rm rn = rn

  refresh_jobs-RefreshEnd :
      (payloads : List JobStatus) (l m : World) (ids : List SlurmJobId)
      → list_status_payloads env hpc l ≡ (returns payloads, m)
      → ((j : SlurmJobId) → In j ids → IsRunningIn payloads j)
      → HasIssued cmds m
      → RefreshEnd env hpc cmds (refresh_jobs env hpc ids m).1.issued
  unfolding refresh_jobs get_slurm_job_states run_cmd
  refresh_jobs-RefreshEnd payloads l m [] e own h = rw (h.issued_are) silent
  refresh_jobs-RefreshEnd payloads l m (id ∷ ids) e own h =
      after (run_cmd env (sacct_command (id ∷ ids)) m)
        (record { issued_are = ap (λ c. c ++ sacct_command (id ∷ ids) ∷ []) h.issued_are })
    where
      after :
          (o : Outcome (Result CommandResult) × World)
          → HasIssued (cmds ++ sacct_command (id ∷ ids) ∷ []) o.1
          → RefreshEnd env hpc cmds
              (and_then
                (and_then o (answer (run_cmd env) (id ∷ ids)))
                (store_answer env hpc)).1.issued
      after (returns r, t) q =
          rw
            (((read_and_store-HasIssued env (cmds ++ sacct_command (id ∷ ids) ∷ []) hpc (id ∷ ids)
                r).at
              t q).issued_are)
            (asked id ids payloads l m e own)
      after (raises x, t) q = rw (q.issued_are) (asked id ids payloads l m e own)

  refresh-Refreshes : Refreshes env hpc cmds (refresh env hpc)
  unfolding refresh list_running_job_ids
  refresh-Refreshes = record {
    at = λ w h.
        go w (list_status_payloads env hpc w) refl
          ((list_status_payloads-HasIssued env cmds hpc).at w h);
  }
    where
      go :
          (w : World) (o : Outcome (List JobStatus) × World)
          → list_status_payloads env hpc w ≡ o
          → HasIssued cmds o.1
          → RefreshEnd env hpc cmds
              (and_then
                (and_then o (λ payloads. pure (running_ids payloads)))
                (refresh_jobs env hpc)).1.issued
      go w (returns payloads, m) e h =
          refresh_jobs-RefreshEnd payloads w m (running_ids payloads) e
            (λ j i. running_ids-IsRunningIn payloads j i) h
      go w (raises x, m) e h = rw (h.issued_are) silent

  try_update_status-Refreshes : Refreshes env hpc cmds (try_update_status env hpc)
  unfolding try_update_status
  try_update_status-Refreshes =
      Refreshes-bind (lease_expired env hpc) _ (lease_expired-HasIssued env cmds hpc) (λ expired.
        Refreshes-if (not expired) (pure tt) _ (Refreshes-Keeps (pure tt) (Keeps-pure tt)) (
          Refreshes-bind (ensure_concurrency_limit env (limit_name hpc)) _
            (ensure_concurrency_limit-HasIssued env cmds (limit_name hpc))
            (λ _.
              Refreshes-bind (with_slot env (take_lease env hpc)) _
                (take_lease-HasIssued env cmds hpc)
                (λ taken.
                  Refreshes-if taken (refresh env hpc) (pure tt) refresh-Refreshes
                    (Refreshes-Keeps (pure tt) (Keeps-pure tt))))))

-- A refresh issues no command, or one sacct and nothing else; and it asks that only for jobs whose
-- payload, as it has read them, is not `CANCELLING`.
pub try_update_status-RefreshEnd :
    (env : Env) (hpc : Text) (w : World)
    → RefreshEnd env hpc w.issued (try_update_status env hpc w).1.issued
try_update_status-RefreshEnd env hpc w =
    (try_update_status-Refreshes env hpc w.issued).at w (record { issued_are = refl })
