-- ===== src/Slurm/Submit/Success.antt =====
-- What a successful submission returns.
use hpc_relay.Base.{
  ℕ, ◌≡◌, ◌≢◌, refl, inl, inr, true, false, Bool-cases, ◌==◌, ◌&&◌, [], ◌∷◌, ◌++◌, Option, none,
  some, arith,
}
use mathlib.Core.Path.{subst}
use hpc_relay.Exec.{Outcome, returns, raises, Exec, pure, and_then}
use hpc_relay.FilePath.{FilePath, StrOrPath, to_text, to_path, text_of}
use hpc_relay.Shell.Quote.{quote, quote_path}
use hpc_relay.Text.Split.{replace_pair}
use hpc_relay.Result.{Result, ok, err}
use hpc_relay.Runner.Context.{CmdContext}
use hpc_relay.Runner.Types.{Command, CommandResult}
use hpc_relay.Slurm.JobId.{parse_job_id}
use hpc_relay.Slurm.JobId.Shape.{IsJobId, parse_job_id_iff}
use hpc_relay.Slurm.Submit.{
  script_given, wrap_value, payload, stdout_path, stderr_path, sbatch_command, resolve_path,
  submitted, read_submission, submit_slurm,
}
use hpc_relay.Slurm.Submit.Branches.{submit_slurm_cases}
use hpc_relay.Slurm.Types.{SlurmJobId, SlurmJob, SlurmSubmissionResult}
use hpc_relay.Text.{Text, codes}

-- `t` is `s` with each pattern `a b`, from the left, replaced by `new`, and all else as it was.
pub data Replaced (a b : ℕ) (new : Text) : Text → Text → Type 0 where
  nothing : Replaced a b new [] []
  pattern_here : (s t : Text) → Replaced a b new s t → Replaced a b new (a ∷ b ∷ s) (new ++ t)
  kept :
      (c : ℕ) (s t : Text)
      → ((rest : Text) → c ∷ s ≢ a ∷ b ∷ rest)
      → Replaced a b new s t
      → Replaced a b new (c ∷ s) (c ∷ t)

pair_found : (a b c d : ℕ) → (c == a && d == b) ≡ true → (c ≡ a) × (d ≡ b)
pair_found a b c d h = (ground arith, ground arith)

pair_missed : (a b c d : ℕ) (s rest : Text) → (c == a && d == b) ≡ false → c ∷ d ∷ s ≢ a ∷ b ∷ rest
pair_missed a b c d s rest h q = absurd (ground arith)

replace_pair-Replaced : (a b : ℕ) (new s : Text) → Replaced a b new s (replace_pair a b new s)
unfolding replace_pair
replace_pair-Replaced a b new [] = nothing
replace_pair-Replaced a b new (c ∷ []) = kept c [] [] (λ rest q. cc) nothing
replace_pair-Replaced a b new (c ∷ d ∷ s) =
    step (replace_pair-Replaced a b new s) (replace_pair-Replaced a b new (d ∷ s))
  where
    step :
        Replaced a b new s (replace_pair a b new s)
        → Replaced a b new (d ∷ s) (replace_pair a b new (d ∷ s))
        → Replaced a b new (c ∷ d ∷ s) (replace_pair a b new (c ∷ d ∷ s))
    step behind next = elim (Bool-cases (c == a && d == b)) [
      | inl h ↦
          let (p, q) = pair_found a b c d h in rw (replace_pair, h, p, q) (pattern_here s _ behind)
      | inr h ↦ rw (replace_pair, h) (kept c (d ∷ s) _ (λ rest. pair_missed a b c d s rest h) next)
    ]

-- `q` is `p` with the id in place of each `%j`, and then of each `%J`.
pub record Resolved (id : SlurmJobId) (p q : FilePath) : Type 0 where
  pub between : Text
  pub text : Text
  pub small : Replaced b'%' b'j' id (to_text p) between
  pub capital : Replaced b'%' b'J' id between text
  pub path_is : q ≡ to_path text

resolve_path-Resolved : (id : SlurmJobId) (p : FilePath) → Resolved id p (resolve_path id p)
unfolding resolve_path
resolve_path-Resolved id p = record {
  between = _;
  text = _;
  small = replace_pair-Replaced b'%' b'j' id (to_text p);
  capital = replace_pair-Replaced b'%' b'J' id _;
  path_is = refl;
}

-- The last word of the line: the script, or, where there is none, the command to wrap.
pub data IsLastWord (job : SlurmJob) (last : Text) : Type 0 where
  the_script :
      (p : StrOrPath)
      → script_given job.script_path ≡ some p
      → last ≡ quote_path (text_of p)
      → IsLastWord job last
  the_command :
      (command : Text)
      → script_given job.script_path ≡ none
      → wrap_value job.command ≡ some command
      → last ≡ codes "--wrap=" ++ quote command
      → IsLastWord job last

payload-IsLastWord :
    (job : SlurmJob) (script : Option StrOrPath) (command : Option Text) (last : Text)
    → script_given job.script_path ≡ script
    → wrap_value job.command ≡ command
    → payload script command ≡ some last
    → IsLastWord job last
unfolding payload
payload-IsLastWord job (some p) command last e w h = the_script p e (ground arith)
payload-IsLastWord job none (some command) last e w h = the_command command e w (ground arith)
payload-IsLastWord job none none last e w h = cc

-- The fields of a result come from sbatch's answer and from the paths of the job.
pub record ComesFrom (job : SlurmJob) (out : FilePath) (result : CommandResult)
    (res : SlurmSubmissionResult) : Type 0 where
  pub id_parsed : parse_job_id result ≡ some res.job_id
  pub id_shape : IsJobId res.job_id
  pub stdout_is : Resolved res.job_id out res.stdout
  pub stderr_is : Resolved res.job_id (stderr_path job out) res.stderr

submitted-ComesFrom :
    (job : SlurmJob) (out : FilePath) (result : CommandResult) (o : Option SlurmJobId)
    (res : SlurmSubmissionResult)
    → parse_job_id result ≡ o
    → submitted job out result o ≡ ok res
    → ComesFrom job out result res
unfolding submitted
submitted-ComesFrom job out result none res e h = cc
submitted-ComesFrom job out result (some id) res e h =
    let i : id ≡ res.job_id = ground arith in
    record {
      id_parsed = rw (← i) e;
      id_shape = rw (← i) ((parse_job_id_iff result id).0 e).2;
      stdout_is =
          subst (Resolved res.job_id out) (resolved_stdout i)
            (resolve_path-Resolved res.job_id out);
      stderr_is =
          subst (Resolved res.job_id (stderr_path job out)) (resolved_stderr i)
            (resolve_path-Resolved res.job_id (stderr_path job out));
    }
  where
    resolved_stdout : id ≡ res.job_id → resolve_path res.job_id out ≡ res.stdout
    resolved_stdout i = ground arith

    resolved_stderr : id ≡ res.job_id → resolve_path res.job_id (stderr_path job out) ≡ res.stderr
    resolved_stderr i = ground arith

module _ {S : Type 0} (run_cmd : Command → Exec S (Result CommandResult)) where
  sent-ComesFrom :
      (job : SlurmJob) (out : FilePath) (res : SlurmSubmissionResult) (s' : S)
      (o : Outcome (Result CommandResult) × S)
      → and_then o (λ result. pure (read_submission job out result)) ≡ (returns (ok res), s')
      → (result : CommandResult) × (o ≡ (returns (ok result), s')) × ComesFrom job out result res
  unfolding read_submission
  sent-ComesFrom job out res s' (raises e, t) h = absurd (ground arith)
  sent-ComesFrom job out res s' (returns (err e), t) h = absurd (ground arith)
  sent-ComesFrom job out res s' (returns (ok result), t) h = (
    result,
    ground arith,
    submitted-ComesFrom job out result (parse_job_id result) res refl (ground arith),
  )

  -- A submission that succeeds has run sbatch with the job's line, whose last word is the script, or
  -- without one the command to wrap; the id that it returns is the one that sbatch printed and has the
  -- shape of a job id, and the paths that it returns are the job's, with the id in place of each pattern
  -- `%j` and `%J` and all else as it was.
  pub submit_slurm-ComesFrom :
      (job : SlurmJob) (ctx : CmdContext) (s s' : S) (res : SlurmSubmissionResult)
      → submit_slurm run_cmd job ctx s ≡ (returns (ok res), s')
      → (out : FilePath) × (last : Text) × (result : CommandResult) × (stdout_path job ≡ some out)
        × IsLastWord job last
        × (run_cmd (sbatch_command job ctx out last) s ≡ (returns (ok result), s'))
        × ComesFrom job out result res
  submit_slurm-ComesFrom job ctx s s' res h = elim (submit_slurm_cases run_cmd job ctx s) [
    | inl (r, _, e) ↦ absurd (ground arith)
    | inr sent ↦
        let (result, ran, from) =
          sent-ComesFrom job sent.out res s' (run_cmd (sbatch_command job ctx sent.out sent.last) s)
            (rw sent.runs at h) in
        (
          sent.out,
          sent.last,
          result,
          sent.out_is,
          payload-IsLastWord job _ _ sent.last refl refl sent.last_is,
          ran,
          from,
        )
  ]
