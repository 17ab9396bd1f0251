-- ===== src/Sbatch/Task/Success.antt =====
-- What a result of `sbatch` stands on.
use hpc_relay.Base.{
  ℕ, ◌≡◌, refl, inl, inr, Bool, true, false, ◌||◌, Option, none, some, [], Bool-cases,
}
use hpc_relay.Exec.{Outcome, returns, raises, Exec, pure, ◌>>=◌, and_then, handle, unwrap}
use hpc_relay.Logs.{Logs}
use hpc_relay.Result.{Exc, slurm_terminal_error, OpError, op_error, Result, ok, err}
use hpc_relay.Runner.Context.{CmdContext, runner_hpc}
use hpc_relay.Sbatch.Poll.{Poll}
use hpc_relay.Sbatch.Task.{
  Final, is_completed, final_result, sbatch_submit_async, submission_artifact, show_output,
  after_wait, monitor, sbatch_try_async, judge, sbatch,
}
use hpc_relay.Sbatch.Variables.{set_status}
use hpc_relay.Sbatch.Wait.{wait_completion_single}
use hpc_relay.Sbatch.World.{slurm, Env, World, run_cmd, create_artifact}
use hpc_relay.Slurm.Submit.{submit_slurm}
use hpc_relay.Slurm.Types.{
  SlurmJobId, SlurmJob, SlurmJobResult, SlurmJobState, pending, SlurmSubmissionResult,
}
use hpc_relay.Text.{Text}

module _ (env : Env) (loads : Text → Outcome Logs) (make_runner : Exec World (Unit {0}))
    (ctx : CmdContext) (job : SlurmJob) (fetch_output : Bool) (fuel : ℕ) where
  -- A result that a submission from the world `w` and a wait have brought.
  pub record Ran (w : World) (r : SlurmJobResult) : Type 0 where
    pub at_submit : World
    pub submitted : submit_slurm (run_cmd env) job ctx w ≡ (returns (ok r.submission), at_submit)
    pub same_id : r.job_id ≡ r.submission.job_id
    pub from : World
    pub to : World
    pub waited :
        wait_completion_single env (runner_hpc ctx) r.job_id fuel from
        ≡ (returns (some (ok r.status)), to)

  -- The monitoring of a job that was submitted in the world `w`; of an exception nothing is said here.
  data Ended (w : World) : Outcome Final × World → Type 0 where
    ran : (r : SlurmJobResult) (v : World) → Ran w r → Ended w (returns (some (ok r)), v)
    wait_failed :
        (sub : SlurmSubmissionResult) (e : OpError) (u from to : World)
        → submit_slurm (run_cmd env) job ctx w ≡ (returns (ok sub), u)
        → wait_completion_single env (runner_hpc ctx) sub.job_id fuel from
          ≡ (returns (some (err e)), to)
        → Ended w (returns (some (err e)), to)
    raised_after : (e : Exc) (v : World) → Ended w (raises e, v)
    unfinished :
        (id : SlurmJobId) (from v : World)
        → wait_completion_single env (runner_hpc ctx) id fuel from ≡ (returns none, v)
        → Ended w (returns none, v)

  -- Why a run from the world `w` has no result: the submission raised the exception; or the wait for the
  -- submitted job gave it as its error; or the monitoring of that job, which is everything between the
  -- submission and the result, raised it.
  pub data Failure (w : World) : Exc → World → Type 0 where
    of_submission :
        (e : Exc) (v : World)
        → sbatch_submit_async env loads make_runner ctx job w ≡ (raises e, v)
        → Failure w e v
    of_wait :
        (sub : SlurmSubmissionResult) (e : OpError) (u from to : World)
        → submit_slurm (run_cmd env) job ctx w ≡ (returns (ok sub), u)
        → wait_completion_single env (runner_hpc ctx) sub.job_id fuel from
          ≡ (returns (some (err e)), to)
        → Failure w e.err to
    of_monitor :
        (sub : SlurmSubmissionResult) (e : Exc) (u v : World)
        → submit_slurm (run_cmd env) job ctx w ≡ (returns (ok sub), u)
        → monitor env loads make_runner ctx job fetch_output sub fuel u ≡ (raises e, v)
        → Failure w e v

  -- A run of `_sbatch_try` from the world `w`.
  pub data Attempt (w : World) : Outcome Final × World → Type 0 where
    got : (r : SlurmJobResult) (v : World) → Ran w r → Attempt w (returns (some (ok r)), v)
    not_got : (e : OpError) (v : World) → Failure w e.err v → Attempt w (returns (some (err e)), v)
    raised : (e : Exc) (v : World) → Failure w e v → Attempt w (raises e, v)
    waits_on :
        (id : SlurmJobId) (from v : World)
        → wait_completion_single env (runner_hpc ctx) id fuel from ≡ (returns none, v)
        → Attempt w (returns none, v)

  module _ (w u : World) (sub : SlurmSubmissionResult)
      (sent : submit_slurm (run_cmd env) job ctx w ≡ (returns (ok sub), u)) where
    shown-Ended :
        (state : SlurmJobState) (from to : World)
        → wait_completion_single env (runner_hpc ctx) sub.job_id fuel from
          ≡ (returns (some (ok state)), to)
        → (o : Outcome (Unit {0}) × World)
        → Ended w (and_then o (λ x. pure (some (ok (final_result sub state)))))
    shown-Ended state from to e (raises x, t) = raised_after x t
    shown-Ended state from to e (returns tt, t) = ran (final_result sub state) t (record {
      at_submit = u;
      submitted = sent;
      same_id = refl;
      from = from;
      to = to;
      waited = e;
    })

    waited-Ended :
        (from : World) (o : Outcome Poll × World)
        → wait_completion_single env (runner_hpc ctx) sub.job_id fuel from ≡ o
        → Ended w (and_then o (after_wait env loads make_runner ctx job sub fetch_output))
    unfolding after_wait
    waited-Ended from (raises x, t) e = raised_after x t
    waited-Ended from (returns none, t) e = unfinished sub.job_id from t e
    waited-Ended from (returns (some (err x)), t) e = wait_failed sub x u from t sent e
    waited-Ended from (returns (some (ok state)), t) e =
        shown-Ended state from t e (show_output env loads make_runner ctx job sub fetch_output t)

    -- An action between the submission and the wait.
    before-Ended :
        {A : Type 0} (m : Exec World A) (f : A → Exec World Final)
        → ((a : A) (t : World) → Ended w (f a t))
        → (t : World) → Ended w ((m >>= f) t)
    before-Ended m f goes_on t = go (m t)
      where
        go : (o : Outcome _ × World) → Ended w (and_then o f)
        go (returns a, t) = goes_on a t
        go (raises x, t) = raised_after x t

    monitor-Ended :
        (t : World) → Ended w (monitor env loads make_runner ctx job fetch_output sub fuel t)
    unfolding monitor
    monitor-Ended t =
        before-Ended make_runner _
          (λ _. before-Ended (set_status env (runner_hpc ctx) sub.job_id (slurm pending)) _ (λ _.
            before-Ended
              (create_artifact env (submission_artifact env loads make_runner ctx job sub [])) _
              (λ _ from.
                waited-Ended from (wait_completion_single env (runner_hpc ctx) sub.job_id fuel from)
                  refl)))
          t

  monitored-Attempt :
      (w u : World) (sub : SlurmSubmissionResult) (o : Outcome Final × World)
      → submit_slurm (run_cmd env) job ctx w ≡ (returns (ok sub), u)
      → monitor env loads make_runner ctx job fetch_output sub fuel u ≡ o
      → Ended w o
      → Attempt w o
  monitored-Attempt w u sub _ sent e (ran r v h) = got r v h
  monitored-Attempt w u sub _ sent e (wait_failed sub' x u' from to h q) =
      not_got x to (of_wait sub' x u' from to h q)
  monitored-Attempt w u sub _ sent e (raised_after x v) = raised x v (of_monitor sub x u v sent e)
  monitored-Attempt w u sub _ sent e (unfinished id from v h) = waits_on id from v h

  submitted-Attempt :
      (w : World) (o : Outcome (Result SlurmSubmissionResult) × World)
      → submit_slurm (run_cmd env) job ctx w ≡ o
      → Attempt w (
          handle
            (and_then o unwrap)
            (λ sub. monitor env loads make_runner ctx job fetch_output sub fuel)
            (λ e. pure (some (err (op_error e)))))
  unfolding unwrap sbatch_submit_async
  submitted-Attempt w (returns (ok sub), u) e =
      monitored-Attempt w u sub (monitor env loads make_runner ctx job fetch_output sub fuel u) e
        refl (monitor-Ended w u sub e u)
  submitted-Attempt w (returns (err x), u) e =
      not_got (op_error x.err) u (of_submission x.err u (rw (e, sbatch_submit_async) refl))
  submitted-Attempt w (raises x, u) e =
      not_got (op_error x) u (of_submission x u (rw (e, sbatch_submit_async) refl))

  sbatch_try_async-Attempt :
      (w : World) → Attempt w (sbatch_try_async env loads make_runner ctx job fetch_output fuel w)
  unfolding sbatch_try_async sbatch_submit_async
  sbatch_try_async-Attempt w = submitted-Attempt w (submit_slurm (run_cmd env) job ctx w) refl

  -- A run of `sbatch` from the world `w`.
  pub data SbatchEnd (accept_failure : Bool) (w : World)
      : Outcome (Option SlurmJobResult) × World → Type 0 where
    done :
        (r : SlurmJobResult) (v : World)
        → Ran w r
        → (is_completed r.status || accept_failure) ≡ true
        → SbatchEnd accept_failure w (returns (some r), v)
    failed_job :
        (r : SlurmJobResult) (v : World)
        → Ran w r
        → (is_completed r.status || accept_failure) ≡ false
        → SbatchEnd accept_failure w (raises (slurm_terminal_error r), v)
    no_result : (e : Exc) (v : World) → Failure w e v → SbatchEnd accept_failure w (raises e, v)
    no_end :
        (id : SlurmJobId) (from v : World)
        → wait_completion_single env (runner_hpc ctx) id fuel from ≡ (returns none, v)
        → SbatchEnd accept_failure w (returns none, v)

  judged-SbatchEnd :
      (accept_failure : Bool) (w : World) (o : Outcome Final × World)
      → Attempt w o
      → SbatchEnd accept_failure w (and_then o (judge env loads make_runner ctx accept_failure))
  unfolding judge
  judged-SbatchEnd accept w o (got r v h) = elim (Bool-cases (is_completed r.status || accept)) [
    | inl q ↦ rw q (done r v h q)
    | inr q ↦ rw q (failed_job r v h q)
  ]
  judged-SbatchEnd accept w o (not_got e v h) = no_result e.err v h
  judged-SbatchEnd accept w o (raised e v h) = no_result e v h
  judged-SbatchEnd accept w o (waits_on id from v h) = no_end id from v h

  -- `sbatch` returns a result only of a job that it has submitted and waited for, with the state that
  -- the wait has brought: `COMPLETED`, unless failures are accepted. Another state raises an exception
  -- that carries that result. Without a result it raises what the submission raised, what the wait
  -- gave as its error, or what the monitoring of the job raised; only where the fuel of the wait ended
  -- does it do neither.
  pub sbatch-SbatchEnd :
      (accept_failure : Bool) (w : World)
      → SbatchEnd accept_failure w
          (sbatch env loads make_runner ctx accept_failure job fetch_output fuel w)
  unfolding sbatch
  sbatch-SbatchEnd accept w =
      judged-SbatchEnd accept w (sbatch_try_async env loads make_runner ctx job fetch_output fuel w)
        (sbatch_try_async-Attempt w)
