-- ===== src/Slurm/Submit/Branches.antt =====
-- Each way that a submission may go.
use hpc_relay.Base.{
  ◌≡◌, refl, ◌∙◌, ◌⊎◌, inl, inr, true, false, Option, none, some, Bool-cases, Option-cases,
}
use hpc_relay.Exec.{returns, Exec, pure, ◌>>=◌}
use hpc_relay.FilePath.{FilePath, StrOrPath, path_of, is_absolute}
use hpc_relay.Result.{
  Reason, relative_working_directory, relative_submission_directory, relative_script_path,
  no_stdout_path, no_script_or_command, Result,
}
use hpc_relay.Runner.Context.{CmdContext}
use hpc_relay.Runner.Types.{Command, CommandResult}
use hpc_relay.Slurm.Submit.{
  is_absolute_or_remote_home_path, check_script, check_submission, check_working, check_paths,
  choose_stdout, stdout_path, script_given, wrap_value, payload, sbatch_command, read_submission,
  invalid, submit_slurm,
}
use hpc_relay.Slurm.Types.{SlurmJob}
use hpc_relay.Text.{Text}

-- The path requirements of the docstring.
pub record HasValidPaths (job : SlurmJob) : Type 0 where
  pub working :
      (d : StrOrPath) → job.working_directory ≡ some d → is_absolute_or_remote_home_path d ≡ true
  pub submission :
      (d : StrOrPath) → job.submission_directory ≡ some d → is_absolute (path_of d) ≡ true
  pub script :
      (p : StrOrPath)
      → job.working_directory ≡ none
      → job.script_path ≡ some p
      → is_absolute (path_of p) ≡ true

-- Why a job is refused before any command runs.
pub data IsRefused (job : SlurmJob) : Reason → Type 0 where
  bad_working :
      (d : StrOrPath)
      → job.working_directory ≡ some d
      → is_absolute_or_remote_home_path d ≡ false
      → IsRefused job (relative_working_directory d)
  bad_submission :
      (d : StrOrPath)
      → job.submission_directory ≡ some d
      → is_absolute (path_of d) ≡ false
      → IsRefused job (relative_submission_directory d)
  bad_script :
      (p : StrOrPath)
      → job.working_directory ≡ none
      → job.script_path ≡ some p
      → is_absolute (path_of p) ≡ false
      → IsRefused job (relative_script_path p)
  nowhere :
      job.stdout ≡ none
      → job.working_directory ≡ none
      → job.script_path ≡ none
      → IsRefused job no_stdout_path
  nothing :
      script_given job.script_path ≡ none
      → wrap_value job.command ≡ none
      → IsRefused job no_script_or_command

working_cases :
    (o : Option StrOrPath) (rest : Option Reason)
    → ((check_working o rest ≡ rest)
        × ((d : StrOrPath) → o ≡ some d → is_absolute_or_remote_home_path d ≡ true))
      ⊎ ((d : StrOrPath) × (o ≡ some d)
          × (is_absolute_or_remote_home_path d ≡ false)
          × (check_working o rest ≡ some (relative_working_directory d)))
unfolding check_working
working_cases none rest = inl (refl, λ d p. cc)
working_cases (some d) rest = elim (Bool-cases (is_absolute_or_remote_home_path d)) [
  | inl e ↦ inl (rw e, λ d' p. let q : d ≡ d' = cc in rw (← q) e)
  | inr e ↦ inr (d, refl, e, rw e)
]

submission_cases :
    (o : Option StrOrPath) (rest : Option Reason)
    → ((check_submission o rest ≡ rest)
        × ((d : StrOrPath) → o ≡ some d → is_absolute (path_of d) ≡ true))
      ⊎ ((d : StrOrPath) × (o ≡ some d)
          × (is_absolute (path_of d) ≡ false)
          × (check_submission o rest ≡ some (relative_submission_directory d)))
unfolding check_submission
submission_cases none rest = inl (refl, λ d p. cc)
submission_cases (some d) rest = elim (Bool-cases (is_absolute (path_of d))) [
  | inl e ↦ inl (rw e, λ d' p. let q : d ≡ d' = cc in rw (← q) e)
  | inr e ↦ inr (d, refl, e, rw e)
]

script_cases :
    (w o : Option StrOrPath)
    → ((check_script w o ≡ none)
        × ((p : StrOrPath) → w ≡ none → o ≡ some p → is_absolute (path_of p) ≡ true))
      ⊎ ((p : StrOrPath) × (w ≡ none)
          × (o ≡ some p)
          × (is_absolute (path_of p) ≡ false)
          × (check_script w o ≡ some (relative_script_path p)))
unfolding check_script
script_cases none (some d) = elim (Bool-cases (is_absolute (path_of d))) [
  | inl e ↦ inl (rw e, λ d' n p. let q : d ≡ d' = cc in rw (← q) e)
  | inr e ↦ inr (d, refl, refl, e, rw e)
]
script_cases none none = inl (refl, λ p n e. cc)
script_cases (some w) o = inl (refl, λ p n e. cc)

check_paths_cases :
    (job : SlurmJob)
    → ((check_paths job ≡ none) × HasValidPaths job)
      ⊎ ((r : Reason) × (check_paths job ≡ some r) × IsRefused job r)
unfolding check_paths
check_paths_cases job =
    elim (working_cases job.working_directory (
      check_submission job.submission_directory
        (check_script job.working_directory job.script_path))) [
          | inr (d, e, bad, c) ↦ inr (_, c, bad_working d e bad)
          | inl (cw, hw) ↦
              elim (submission_cases job.submission_directory
                (check_script job.working_directory job.script_path)) [
                  | inr (d, e, bad, c) ↦ inr (_, cw ∙ c, bad_submission d e bad)
                  | inl (cs, hs) ↦ elim (script_cases job.working_directory job.script_path) [
                    | inr (p, n, e, bad, c) ↦ inr (_, cw ∙ cs ∙ c, bad_script p n e bad)
                    | inl (c, hp) ↦
                        inl (cw ∙ cs ∙ c, record { working = hw; submission = hs; script = hp })
                  ]
                ]
        ]

choose_none :
    (name : Text) (o d p : Option StrOrPath)
    → choose_stdout name o d p ≡ none
    → (o ≡ none) × (d ≡ none) × (p ≡ none)
unfolding choose_stdout
choose_none name none none none h = (refl, refl, refl)
choose_none name (some o) d p h = cc
choose_none name none (some d) p h = cc
choose_none name none none (some p) h = cc

stdout_path-none : (job : SlurmJob) → stdout_path job ≡ none → IsRefused job no_stdout_path
unfolding stdout_path
stdout_path-none job h = let (o, d, p) = choose_none _ _ _ _ h in nowhere o d p

payload-none :
    (script : Option StrOrPath) (wrap : Option Text)
    → payload script wrap ≡ none
    → (script ≡ none) × (wrap ≡ none)
unfolding payload
payload-none none none h = (refl, refl)
payload-none (some p) w h = cc
payload-none none (some w) h = cc

module _ {S : Type 0} (run_cmd : Command → Exec S (Result CommandResult)) where
  -- sbatch is run once, with this line, and its answer is read.
  pub record IsSent (job : SlurmJob) (ctx : CmdContext) (s : S) : Type 0 where
    pub valid : HasValidPaths job
    pub out : FilePath
    pub last : Text
    pub out_is : stdout_path job ≡ some out
    pub last_is : payload (script_given job.script_path) (wrap_value job.command) ≡ some last
    pub runs :
        submit_slurm run_cmd job ctx s
        ≡ (do
          result ← run_cmd (sbatch_command job ctx out last)
          pure (read_submission job out result))
            s

  -- A submission either is refused for a reason of the docstring, with no command run, or has valid
  -- paths, a file for its output and something to run, and then runs sbatch exactly once.
  pub submit_slurm_cases :
      (job : SlurmJob) (ctx : CmdContext) (s : S)
      → ((r : Reason) × IsRefused job r
          × (submit_slurm run_cmd job ctx s ≡ (returns (invalid r), s)))
        ⊎ IsSent job ctx s
  unfolding submit_slurm
  submit_slurm_cases job ctx s = elim (check_paths_cases job) [
    | inr (r, c, why) ↦ inl (r, why, rw (c, submit_slurm))
    | inl (c, valid) ↦ elim (Option-cases (stdout_path job)) [
      | inl n ↦ inl (_, stdout_path-none job n, rw (c, n, submit_slurm))
      | inr (out, o) ↦
          elim (Option-cases (payload (script_given job.script_path) (wrap_value job.command))) [
            | inl n ↦
                let (a, b) = payload-none _ _ n in inl (_, nothing a b, rw (c, o, n, submit_slurm))
            | inr (last, l) ↦ inr (record {
              valid = valid;
              out = out;
              last = last;
              out_is = o;
              last_is = l;
              runs = rw (c, o, l, submit_slurm);
            })
          ]
    ]
  ]
