-- ===== src/Firecrest/Contract.antt =====
-- How `run` of the FirecREST runner ends: what it raises, although a runner is to return its errors, and
-- what becomes of an exception of the job.
use hpc_relay.Base.{◌≡◌, refl, Bool}
use hpc_relay.Exec.{Outcome, returns, raises, pure, handle, and_then}
use hpc_relay.FilePath.{FilePath}
use hpc_relay.Firecrest.Answers.{Json}
use hpc_relay.Firecrest.JobAnswer.{Gives, gave, threw, Answer, run_job-Answer}
use hpc_relay.Firecrest.Runner.{run_job, run}
use hpc_relay.Firecrest.{Api, State, refresh_client}
use hpc_relay.Result.{Exc, op_error, Result, err}
use hpc_relay.Runner.Context.{CscsFirecrestContext}
use hpc_relay.Runner.Types.{Command, CommandResult}
use hpc_relay.Text.{Text}

module _ (api : Api) (is_firecrest : Exc → Bool) (py_str : Json → Text)
    (expanduser : FilePath → Outcome FilePath) (sha256 : Text → Text) (ctx : CscsFirecrestContext)
    (cmd : Command) where
  -- An end of `run` from the state `s`.
  pub data RunEnd (s : State) : Outcome (Result CommandResult) × State → Type 0 where
    not_refreshed :
        (e : Exc) (t : State)
        → refresh_client api expanduser sha256 ctx s ≡ (raises e, t)
        → RunEnd s (raises e, t)
    answered :
        (r : Result CommandResult) (u t : State)
        → refresh_client api expanduser sha256 ctx s ≡ (returns tt, u)
        → Answer api is_firecrest py_str ctx cmd r
        → RunEnd s (returns r, t)
    job_raised :
        (e : Exc) (u t : State)
        → refresh_client api expanduser sha256 ctx s ≡ (returns tt, u)
        → run_job api is_firecrest py_str ctx cmd u ≡ (raises e, t)
        → RunEnd s (returns (err (op_error e)), t)

  -- `run` raises what the refresh of its client raises, and nothing else. A result is
  -- that of a job which was submitted and then waited for: its outputs and its exit code are what its files
  -- held, or nothing for one that FirecREST did not give. A submission without an id gives an error; an
  -- exception of the job is returned as the error that carries it, in the state that the job has left.
  pub run-RunEnd : (s : State) → RunEnd s (run api is_firecrest py_str expanduser sha256 ctx cmd s)
  unfolding run
  run-RunEnd s = refreshed (refresh_client api expanduser sha256 ctx s) refl
    where
      tried :
          (u : State) (o : Outcome (Result CommandResult) × State)
          → refresh_client api expanduser sha256 ctx s ≡ (returns tt, u)
          → run_job api is_firecrest py_str ctx cmd u ≡ o
          → Gives (Answer api is_firecrest py_str ctx cmd) o
          → RunEnd s (handle o pure (λ x. pure (err (op_error x))))
      tried u _ e q (gave r t a) = answered r u t e a
      tried u _ e q (threw x t) = job_raised x u t e q

      refreshed :
          (o : Outcome (Unit {0}) × State)
          → refresh_client api expanduser sha256 ctx s ≡ o
          → RunEnd s (
              and_then o (λ _ u.
                handle
                  (run_job api is_firecrest py_str ctx cmd u)
                  pure
                  (λ x. pure (err (op_error x)))))
      refreshed (raises x, t) e = not_refreshed x t e
      refreshed (returns a, u) e =
          tried u (run_job api is_firecrest py_str ctx cmd u) e refl
            (run_job-Answer api is_firecrest py_str ctx cmd u)
