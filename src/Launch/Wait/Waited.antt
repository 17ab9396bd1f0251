-- ===== src/Launch/Wait/Waited.antt =====
-- What a list of results of `wait_for_completion` stands on, and where the wait stops.
use hpc_relay.Base.{
  ℕ, suc, ◌≡◌, refl, Bool, List, [], ◌∷◌, ◌++◌, Option, none, some, append_assoc, append-nil,
}
use mathlib.Core.Path.{subst}
use hpc_relay.Exec.{Outcome, returns, raises, Exec, and_then}
use hpc_relay.Launch.Run.{LaunchSlurm}
use hpc_relay.Launch.Wait.{
  Waits, result_of, publish, after_job, wait_jobs, after_runner, wait_for_completion,
}
use hpc_relay.Logs.{Logs}
use hpc_relay.Result.{Exc, OpError, ok, err}
use hpc_relay.Sbatch.Poll.{Poll}
use hpc_relay.Sbatch.Wait.{wait_completion_single}
use hpc_relay.Sbatch.World.{Env, World}
use hpc_relay.Slurm.Types.{SlurmJobResult, SlurmJobState, SlurmSubmissionResult}
use hpc_relay.Text.{Text}

module _ (env : Env) (loads : Text → Outcome Logs) (state_name : SlurmJobState → Text) (hpc : Text)
    (ls : LaunchSlurm) (fetch_output : Bool) (fuel : ℕ) where
  -- A wait for the job that ends so.
  pub record Answers (sub : SlurmSubmissionResult) (poll : Poll) : Type 0 where
    pub from : World
    pub to : World
    pub waited : wait_completion_single env hpc sub.job_id fuel from ≡ (returns poll, to)

  -- One result for each job, in their order, with the state that a wait for it has brought.
  pub data Waited : List SlurmSubmissionResult → List SlurmJobResult → Type 0 where
    done : Waited [] []
    next :
        {sub : SlurmSubmissionResult} {subs : List SlurmSubmissionResult} {state : SlurmJobState}
        {results : List SlurmJobResult}
        → Answers sub (some (ok state))
        → Waited subs results
        → Waited (sub ∷ subs) (result_of sub state ∷ results)

  -- How the wait for some jobs ends, of which others have given `before`: all have been awaited; or some,
  -- and the wait for the next one failed, or it raised; or its fuel ended.
  pub data WaitEnd (before : List SlurmJobResult) (subs : List SlurmSubmissionResult)
      : Outcome Waits × World → Type 0 where
    complete :
        (results : List SlurmJobResult) (w : World)
        → Waited subs results
        → WaitEnd before subs (returns (some (ok (before ++ results))), w)
    failed :
        (first after : List SlurmSubmissionResult) (sub : SlurmSubmissionResult)
        (results : List SlurmJobResult) (e : OpError) (w : World)
        → subs ≡ first ++ (sub ∷ after)
        → Waited first results
        → Answers sub (some (err e))
        → WaitEnd before subs (returns (some (err e)), w)
    raised :
        (first after : List SlurmSubmissionResult) (sub : SlurmSubmissionResult)
        (results : List SlurmJobResult) (e : Exc) (w : World)
        → subs ≡ first ++ (sub ∷ after)
        → Waited first results
        → WaitEnd before subs (raises e, w)
    unfinished :
        (first after : List SlurmSubmissionResult) (sub : SlurmSubmissionResult)
        (results : List SlurmJobResult) (w : World)
        → subs ≡ first ++ (sub ∷ after)
        → Waited first results
        → Answers sub none
        → WaitEnd before subs (returns none, w)

  -- A job that was awaited, before those that are left.
  WaitEnd-next :
      (before : List SlurmJobResult) (sub : SlurmSubmissionResult)
      (subs : List SlurmSubmissionResult) (state : SlurmJobState) (o : Outcome Waits × World)
      → Answers sub (some (ok state))
      → WaitEnd (before ++ result_of sub state ∷ []) subs o
      → WaitEnd before (sub ∷ subs) o
  WaitEnd-next before sub subs state _ a (complete results w h) =
      rw (append_assoc before (result_of sub state ∷ []) results)
        (complete (result_of sub state ∷ results) w (next a h))
  WaitEnd-next before sub subs state _ a (failed first after other results e w q h f) =
      failed (sub ∷ first) after other (result_of sub state ∷ results) e w (rw q refl) (next a h) f
  WaitEnd-next before sub subs state _ a (raised first after other results e w q h) =
      raised (sub ∷ first) after other (result_of sub state ∷ results) e w (rw q refl) (next a h)
  WaitEnd-next before sub subs state _ a (unfinished first after other results w q h f) =
      unfinished (sub ∷ first) after other (result_of sub state ∷ results) w (rw q refl) (next a h)
        f

  module _ (sub : SlurmSubmissionResult) (subs : List SlurmSubmissionResult)
      (before : List SlurmJobResult) where
    published-WaitEnd :
        (state : SlurmJobState) (rest : List SlurmJobResult → Exec World Waits)
        (o : Outcome (Unit {0}) × World)
        → Answers sub (some (ok state))
        → ((results : List SlurmJobResult) (w : World) → WaitEnd results subs (rest results w))
        → WaitEnd before (sub ∷ subs) (and_then o (λ _. rest (before ++ result_of sub state ∷ [])))
    published-WaitEnd state rest (returns tt, w) a goes_on =
        WaitEnd-next before sub subs state _ a (goes_on (before ++ result_of sub state ∷ []) w)
    published-WaitEnd state rest (raises e, w) a goes_on = raised [] subs sub [] e w refl done

    after_job-WaitEnd :
        (part : ℕ) (rest : List SlurmJobResult → Exec World Waits) (from : World)
        (o : Outcome Poll × World)
        → wait_completion_single env hpc sub.job_id fuel from ≡ o
        → ((results : List SlurmJobResult) (w : World) → WaitEnd results subs (rest results w))
        → WaitEnd before (sub ∷ subs) (
            and_then o
              (after_job env loads state_name hpc ls fetch_output fuel part sub rest before))
    unfolding after_job
    after_job-WaitEnd part rest from (raises e, w) q goes_on = raised [] subs sub [] e w refl done
    after_job-WaitEnd part rest from (returns none, w) q goes_on =
        unfinished [] subs sub [] w refl done (record { from = from; to = w; waited = q })
    after_job-WaitEnd part rest from (returns (some (err e)), w) q goes_on =
        failed [] subs sub [] e w refl done (record { from = from; to = w; waited = q })
    after_job-WaitEnd part rest from (returns (some (ok state)), w) q goes_on =
        published-WaitEnd state rest
          (publish env loads state_name hpc ls fetch_output fuel part sub state w)
          (record { from = from; to = w; waited = q }) goes_on

  wait_jobs-WaitEnd :
      (part : ℕ) (subs : List SlurmSubmissionResult) (before : List SlurmJobResult) (w : World)
      → WaitEnd before subs
          (wait_jobs env loads state_name hpc ls fetch_output fuel part subs before w)
  unfolding wait_jobs
  wait_jobs-WaitEnd part [] before w =
      subst (λ l. WaitEnd before [] (returns (some (ok l)), w)) (append-nil before)
        (complete [] w done)
  wait_jobs-WaitEnd part (sub ∷ subs) before w =
      after_job-WaitEnd sub subs before part
        (wait_jobs env loads state_name hpc ls fetch_output fuel (suc part) subs) w
        (wait_completion_single env hpc sub.job_id fuel w) refl
        (λ results v. wait_jobs-WaitEnd (suc part) subs results v)

  -- With a runner, `wait_for_completion` returns a list only with one result for each job of the launch,
  -- in their order, each with the state that a wait for that job has brought. Otherwise the jobs before
  -- some job have been awaited so, and the wait for that job gave the error that is returned, or ran out
  -- of its fuel, or an exception was raised in the wait or behind it.
  pub wait_for_completion-WaitEnd :
      (make_runner : Exec World (Option Exc)) (w v : World)
      → make_runner w ≡ (returns none, v)
      → WaitEnd [] ls.slurm_jobs
          (wait_for_completion env loads state_name hpc ls fetch_output fuel make_runner w)
  unfolding wait_for_completion after_runner
  wait_for_completion-WaitEnd make_runner w v e = rw e (wait_jobs-WaitEnd 1 ls.slurm_jobs [] v)
