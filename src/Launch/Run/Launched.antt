-- ===== src/Launch/Run/Launched.antt =====
-- How a launch ends, on every branch.
use hpc_relay.Base.{
  ℕ, suc, List, ◌≢◌, append_assoc, ◌≡◌, refl, ap, inl, inr, ◌⊎◌, true, false, [], ◌∷◌, ◌++◌, Option,
  none, some, is_zero, Bool-cases,
}
use hpc_relay.Exec.{Outcome, returns, raises, pure, and_then, handle}
use hpc_relay.FilePath.{FilePath, to_path, join}
use hpc_relay.Launch.{LaunchSlurmOptions, stage_name, launch_command}
use hpc_relay.Launch.Run.{
  LaunchSlurm, slurm_jobs_from, part_file, logs_dir_of, entry, launch_of, launch_artifact,
  with_output, parse_either, error_artifact, publish_launch_error_artifact, fail_with, after_parse,
  after_run, exit_text, launch_slurm,
}
use hpc_relay.Launch.Summary.{Summary, parse_launch_summary}
use hpc_relay.Result.{
  Exc, value_error, runtime_error, launcher_failed, no_summary, OpError, Result, ok, err,
}
use hpc_relay.Runner.Types.{CommandResult}
use hpc_relay.Sbatch.World.{Artifact, Env, World, run_cmd, create_artifact}
use hpc_relay.Slurm.Types.{SlurmJobId, SlurmSubmissionResult}
use hpc_relay.Text.{Text, codes}
use hpc_relay.Text.Decimal.{decimal}

-- What the two outputs of the launcher are read as: the summary of the first; of the second, where the
-- first has none.
pub data Parsed (res : CommandResult) (o : Outcome (Option Summary)) : Type 0 where
  of_stdout : parse_launch_summary res.stdout ≡ o → o ≢ returns none → Parsed res o
  of_stderr :
      parse_launch_summary res.stdout ≡ returns none
      → parse_launch_summary res.stderr ≡ o
      → Parsed res o

parse_either-Parsed : (res : CommandResult) → Parsed res (parse_either res)
unfolding parse_either
parse_either-Parsed res = go (parse_launch_summary res.stdout) refl
  where
    go :
        (o : Outcome (Option Summary))
        → parse_launch_summary res.stdout ≡ o
        → Parsed res (parse_either res)
    go (raises e) h = rw (h, parse_either) (of_stdout h (λ q. cc))
    go (returns none) h = rw (h, parse_either) (of_stderr h refl)
    go (returns (some s)) h = rw (h, parse_either) (of_stdout h (λ q. cc))

-- An error with this exception, which carries the whole output of the launcher.
pub record Carries (res : CommandResult) (exc : Exc) (e : OpError) : Type 0 where
  pub err_is : e.err ≡ exc
  pub stdout_is : e.stdout ≡ some res.stdout
  pub stderr_is : e.stderr ≡ some res.stderr
  pub return_code_is : e.return_code ≡ some res.return_code

with_output-Carries : (res : CommandResult) (exc : Exc) → Carries res exc (with_output exc res)
unfolding with_output
with_output-Carries res exc = record {
  err_is = refl;
  stdout_is = refl;
  stderr_is = refl;
  return_code_is = refl;
}

-- One job for each id, in their order, its logs numbered from `part` in the directory `dir`.
pub data JobsFrom (dir : FilePath) : ℕ → List SlurmJobId → List SlurmSubmissionResult → Type 0 where
  no_more : (part : ℕ) → JobsFrom dir part [] []
  job :
      (part : ℕ) (sub : SlurmSubmissionResult) (ids : List SlurmJobId)
      (subs : List SlurmSubmissionResult)
      → sub.stdout
        ≡ join dir
            (codes "weathergen.part" ++ (decimal part ++ (b'.' ∷ (sub.job_id ++ codes ".out"))))
      → sub.stderr
        ≡ join dir
            (codes "weathergen.part" ++ (decimal part ++ (b'.' ∷ (sub.job_id ++ codes ".err"))))
      → JobsFrom dir (suc part) ids subs
      → JobsFrom dir part (sub.job_id ∷ ids) (sub ∷ subs)

slurm_jobs_from-JobsFrom :
    (dir : FilePath) (part : ℕ) (ids : List SlurmJobId)
    → JobsFrom dir part ids (slurm_jobs_from dir part ids)
unfolding slurm_jobs_from part_file
slurm_jobs_from-JobsFrom dir part [] = no_more part
slurm_jobs_from-JobsFrom dir part (id ∷ ids) =
    job part _ ids _ refl refl (slurm_jobs_from-JobsFrom dir (suc part) ids)

-- A launch made of a summary.
pub record MadeOf (launch : LaunchSlurmOptions) (s : Summary) (ls : LaunchSlurm) : Type 0 where
  pub run_id_is : ls.wg_run_id ≡ s.0
  pub stage_is : ls.stage ≡ stage_name launch.stage
  pub work_dir_is : ls.wg_work_dir ≡ s.2
  pub jobs_are :
      JobsFrom
        (join (join (join (to_path s.2) (codes "WeatherGenerator")) (codes "logs")) s.0)
        1
        s.1
        ls.slurm_jobs

launch_of-MadeOf :
    (launch : LaunchSlurmOptions) (s : Summary) → MadeOf launch s (launch_of launch s)
unfolding launch_of logs_dir_of
launch_of-MadeOf launch (run_id, job_ids, work_dir) = record {
  run_id_is = refl;
  stage_is = refl;
  work_dir_is = refl;
  jobs_are = slurm_jobs_from-JobsFrom _ 1 job_ids;
}

-- An artifact that begins with the id of the run and the stage, and names both in its description.
pub record Shows (ls : LaunchSlurm) (a : Artifact) : Type 0 where
  pub rest : Text
  pub markdown_is :
      a.markdown
      ≡ codes "## WeatherGenerator launch-slurm\n\n- **Run ID:** `"
        ++ (ls.wg_run_id ++ (codes "`\n- **Stage:** `" ++ (ls.stage ++ rest)))
  pub description_is :
      a.description
      ≡ codes "wg run " ++ (ls.wg_run_id ++ (codes " stage " ++ (ls.stage ++ codes " launch")))

entry-entry :
    (run stage more : Text)
    → entry (codes "Run ID") run ++ (entry (codes "Stage") stage ++ more)
      ≡ codes "- **Run ID:** `"
        ++ (run ++ (codes "`\n- **Stage:** `" ++ (stage ++ (codes "`\n" ++ more))))
unfolding entry
entry-entry run stage more =
    rw
      (
        append_assoc run (codes "`\n") (entry (codes "Stage") stage ++ more),
        append_assoc stage (codes "`\n") more,
      )
      refl

launch_artifact-Shows :
    (launch : LaunchSlurmOptions) (ls : LaunchSlurm) (res : CommandResult)
    → Shows ls (launch_artifact launch ls res)
unfolding launch_artifact entry
launch_artifact-Shows launch ls res = record {
  rest = _;
  markdown_is =
      ap (λ t. codes "## WeatherGenerator launch-slurm\n\n" ++ t)
        (entry-entry ls.wg_run_id ls.stage _);
  description_is = refl;
}

module _ (env : Env) (py_str : Exc → Text) (task_run_id : Option Text) (launch : LaunchSlurmOptions)
    (w : World) where
  -- The answer to the command of the launch.
  abbrev pub answer : Outcome (Result CommandResult)
  answer = env.shell w.events (launch_command launch)

  -- The launcher ended well, with this summary.
  pub record Summed (res : CommandResult) (o : Outcome (Option Summary)) : Type 0 where
    pub ran : answer ≡ returns (ok res)
    pub exit : is_zero res.return_code ≡ true
    pub parsed : Parsed res o

  -- Why there is no launch.
  pub data NotLaunched : OpError → Type 0 where
    not_run : (e : OpError) → answer ≡ returns (err e) → NotLaunched e
    bad_exit :
        (res : CommandResult) (e : OpError)
        → answer ≡ returns (ok res)
        → is_zero res.return_code ≡ false
        → Carries res (runtime_error (launcher_failed res.return_code)) e
        → NotLaunched e
    malformed :
        (res : CommandResult) (exc : Exc) (e : OpError)
        → Summed res (raises exc)
        → Carries res exc e
        → NotLaunched e
    unfound :
        (res : CommandResult) (e : OpError)
        → Summed res (returns none)
        → Carries res (value_error no_summary) e
        → NotLaunched e

  -- One command was issued, that of the launch, and at most one artifact was made.
  pub record Tried (v : World) : Type 0 where
    pub one_command : v.issued ≡ w.issued ++ launch_command launch ∷ []
    pub one_artifact :
        (v.artifacts ≡ w.artifacts) ⊎ ((a : Artifact) × (v.artifacts ≡ w.artifacts ++ a ∷ []))

  pub data LaunchEnd : Outcome (Result LaunchSlurm) × World → Type 0 where
    launched :
        (res : CommandResult) (s : Summary) (ls : LaunchSlurm) (a : Artifact) (v : World)
        → Summed res (returns (some s))
        → MadeOf launch s ls
        → Shows ls a
        → v.issued ≡ w.issued ++ launch_command launch ∷ []
        → v.artifacts ≡ w.artifacts ++ a ∷ []
        → LaunchEnd (returns (ok ls), v)
    refused : (e : OpError) (v : World) → NotLaunched e → Tried v → LaunchEnd (returns (err e), v)
    not_answered : (e : Exc) (v : World) → answer ≡ raises e → Tried v → LaunchEnd (raises e, v)
    unpublished :
        (res : CommandResult) (s : Summary) (e : Exc) (n : ℕ) (v : World)
        → Summed res (returns (some s))
        → env.api n ≡ some e
        → Tried v
        → LaunchEnd (raises e, v)

  -- The world behind the command.
  abbrev behind : World
  unfolding run_cmd
  behind = (run_cmd env (launch_command launch) w).1

  made :
      (u : World) (a : Artifact)
      → u.issued ≡ w.issued ++ launch_command launch ∷ []
      → u.artifacts ≡ w.artifacts
      → (x : Option Exc) → env.api u.events ≡ x
      → Tried (create_artifact env a u).1
  unfolding create_artifact
  made u a c q none h =
      rw (create_artifact, h) (record { one_command = c; one_artifact = inr (a, rw q refl) })
  made u a c q (some e) h =
      rw (create_artifact, h) (record { one_command = c; one_artifact = inl q })

  -- A failure is published, or is not, and returned.
  told-LaunchEnd :
      (e : OpError) (error : Text) (stdout stderr : Option Text) (o : Outcome (Unit {0}) × World)
      → NotLaunched e
      → Tried o.1
      → LaunchEnd (and_then (handle o pure (λ _. pure tt)) (λ _. pure (err e)))
  told-LaunchEnd e error stdout stderr (returns tt, v) n t = refused e v n t
  told-LaunchEnd e error stdout stderr (raises x, v) n t = refused e v n t

  tell-LaunchEnd :
      (e : OpError) (error : Text) (stdout stderr : Option Text) (u : World)
      → NotLaunched e
      → u.issued ≡ w.issued ++ launch_command launch ∷ []
      → u.artifacts ≡ w.artifacts
      → LaunchEnd (
          and_then
            (publish_launch_error_artifact env py_str task_run_id launch error stdout stderr u)
            (λ _. pure (err e)))
  unfolding publish_launch_error_artifact
  tell-LaunchEnd e error stdout stderr u n c q =
      told-LaunchEnd e error stdout stderr
        (create_artifact env (error_artifact env py_str task_run_id launch error stdout stderr) u) n
        (made u (error_artifact env py_str task_run_id launch error stdout stderr) c q
          (env.api u.events) refl)

  module _ (u : World) (issued : u.issued ≡ w.issued ++ launch_command launch ∷ [])
      (artifacts : u.artifacts ≡ w.artifacts) (res : CommandResult) where
    published-LaunchEnd :
        (s : Summary) (x : Option Exc)
        → env.api u.events ≡ x
        → Summed res (returns (some s))
        → LaunchEnd (
            and_then
              (create_artifact env (launch_artifact launch (launch_of launch s) res) u)
              (λ _. pure (ok (launch_of launch s))))
    unfolding create_artifact
    published-LaunchEnd s none h m =
        rw (create_artifact, h)
          (launched res s _ _ _ m (launch_of-MadeOf launch s)
            (launch_artifact-Shows launch (launch_of launch s) res) issued (rw artifacts refl))
    published-LaunchEnd s (some e) h m =
        rw (create_artifact, h)
          (unpublished res s e u.events _ m h
            (record { one_command = issued; one_artifact = inl artifacts }))

    fail_with-LaunchEnd :
        (error : Text) (e : Exc)
        → NotLaunched (with_output e res)
        → LaunchEnd (fail_with env py_str task_run_id launch error e res u)
    unfolding fail_with
    fail_with-LaunchEnd error e n =
        tell-LaunchEnd (with_output e res) error (some res.stdout) (some res.stderr) u n issued
          artifacts

    parsed-LaunchEnd :
        (o : Outcome (Option Summary))
        → Summed res o
        → LaunchEnd (after_parse env py_str task_run_id launch res o u)
    unfolding after_parse
    parsed-LaunchEnd (raises e) m =
        fail_with-LaunchEnd (codes "malformed summary block: " ++ py_str e) e
          (malformed res e _ m (with_output-Carries res e))
    parsed-LaunchEnd (returns none) m =
        fail_with-LaunchEnd (codes "could not find a summary block in launch_slurm.py output")
          (value_error no_summary) (unfound res _ m (with_output-Carries res _))
    parsed-LaunchEnd (returns (some s)) m = published-LaunchEnd s (env.api u.events) refl m

    run-LaunchEnd :
        answer ≡ returns (ok res) → LaunchEnd (after_run env py_str task_run_id launch (ok res) u)
    unfolding after_run
    run-LaunchEnd a = elim (Bool-cases (is_zero res.return_code)) [
      | inl y ↦ rw y (
          parsed-LaunchEnd (parse_either res)
            (record { ran = a; exit = y; parsed = parse_either-Parsed res }))
      | inr n ↦ rw n (
          fail_with-LaunchEnd (exit_text env py_str task_run_id launch res.return_code)
            (runtime_error (launcher_failed res.return_code))
            (bad_exit res _ a n (with_output-Carries res _)))
    ]

  -- A launch issues its command and no other, and makes at most one artifact. It gives a launch only where
  -- the command ended with 0 and its output, or else its error output, has a summary. The launch has the
  -- run and the working directory of the summary, and a job for each id, in their order, with its logs; the
  -- artifact begins with the run and the stage. Otherwise it gives the error of the command, or one that
  -- carries both outputs and the exit code, for a bad exit code, a malformed summary or a missing one,
  -- whether or not the artifact was made; or it raises what the command raised, or what the API raised
  -- when a launch was to be shown.
  pub launch_slurm-LaunchEnd : LaunchEnd (launch_slurm env py_str task_run_id launch w)
  unfolding launch_slurm after_run run_cmd
  launch_slurm-LaunchEnd = go answer refl
    where
      go :
          (o : Outcome (Result CommandResult))
          → answer ≡ o
          → LaunchEnd (and_then (o, behind) (after_run env py_str task_run_id launch))
      go (raises e) a =
          not_answered e behind a (record { one_command = refl; one_artifact = inl refl })
      go (returns (err e)) a =
          tell-LaunchEnd e (codes "command failed: " ++ py_str e.err) e.stdout e.stderr behind
            (not_run e a) refl refl
      go (returns (ok res)) a = run-LaunchEnd behind refl refl res a
