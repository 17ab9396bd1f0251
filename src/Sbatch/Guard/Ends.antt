-- ===== src/Sbatch/Guard/Ends.antt =====
-- The ways that `_flow_cancellation_guard` may go, and the commands that it issues on each.
use hpc_relay.Base.{
  In, ◌≡◌, ◌≢◌, ℤ, pos, negsuc, zero, suc, is_zero, arith, refl, ap, ◌↔◌, ◌⊎◌, inl, inr, true,
  false, Bool-cases, List, [], ◌∷◌, ◌++◌, Option, none, some,
}
use hpc_relay.Exec.{Outcome, returns, raises, and_then, ◌>>◌}
use mathlib.Core.Path.{subst}
use hpc_relay.Result.{Exc, runtime_error, scancel_failed, OpError, Result, ok, err}
use hpc_relay.Sbatch.Variables.Stored.{SetStatus, set_status-SetStatus}
use hpc_relay.Runner.Types.{Command, CommandResult}
use hpc_relay.Sbatch.Guard.{
  is_signal, own_ids, scancel_command, scancel_result, mark_all, cancel_all, fold_jobs, guard_in,
  flow_cancellation_guard,
}
use hpc_relay.Sbatch.Guard.Commands.{
  HasIssued, IsOwnOf, own_ids_sound, own_ids_complete, list_status_payloads-HasIssued,
  mark_all-HasIssued,
}
use hpc_relay.Sbatch.Variables.{truthy, set_status, list_status_payloads}
use hpc_relay.Sbatch.World.{cancelling, JobStatus, Env, World, run_cmd, read_flow_run}
use hpc_relay.Slurm.Types.{SlurmJobId}
use hpc_relay.Text.{Text}

-- From the world `u` to `v`, each of the jobs was marked `CANCELLING`, one after the other.
pub data Marked (env : Env) (hpc : Text) : List SlurmJobId → World → World → Type 0 where
  no_more : (v : World) → Marked env hpc [] v v
  marked :
      (id : SlurmJobId) (ids : List SlurmJobId) (u m v : World)
      → SetStatus env hpc id cancelling u (returns tt, m)
      → Marked env hpc ids m v
      → Marked env hpc (id ∷ ids) u v

mark_all-Marked :
    (env : Env) (hpc : Text) (ids : List SlurmJobId) (u v : World)
    → mark_all env hpc ids u ≡ (returns tt, v)
    → Marked env hpc ids u v
unfolding mark_all
mark_all-Marked env hpc [] u v e = subst (Marked env hpc [] u) (ap (λ o. o.1) e) (no_more u)
mark_all-Marked env hpc (id ∷ ids) u v e =
    go (set_status env hpc id cancelling u) (set_status-SetStatus env hpc id cancelling u) e
      (mark_all-Marked env hpc ids)
  where
    go :
        (o : Outcome (Unit {0}) × World)
        → SetStatus env hpc id cancelling u o
        → and_then o (λ _. mark_all env hpc ids) ≡ (returns tt, v)
        → ((m v : World) → mark_all env hpc ids m ≡ (returns tt, v) → Marked env hpc ids m v)
        → Marked env hpc (id ∷ ids) u v
    go (returns a, m) s q more = marked id ids u m v s (more m v q)
    go (raises x, m) s q more = absurd (ground arith)

-- What the guard answers for these jobs, by the answer to scancel: the jobs, if it exited with 0; else
-- an error with the output of scancel, or the error of the command.
pub data Cancelled (ids : List SlurmJobId)
    : Result CommandResult → Result (List SlurmJobId) → Type 0 where
  all_cancelled : (res : CommandResult) → res.return_code ≡ pos 0 → Cancelled ids (ok res) (ok ids)
  refused :
      (res : CommandResult) (e : OpError)
      → res.return_code ≢ pos 0
      → e.err ≡ runtime_error (scancel_failed ids)
      → e.stdout ≡ some res.stdout
      → e.stderr ≡ some res.stderr
      → e.return_code ≡ some res.return_code
      → Cancelled ids (ok res) (err e)
  command_failed : (e : OpError) → Cancelled ids (err e) (err e)

is_zero-pos : (z : ℤ) → is_zero z ≡ true → z ≡ pos 0
is_zero-pos (pos zero) h = refl
is_zero-pos (pos (suc n)) h = cc
is_zero-pos (negsuc n) h = cc

is_zero-other : (z : ℤ) → is_zero z ≡ false → z ≢ pos 0
is_zero-other z h e = cc (rw e at h)

scancel_result-Cancelled :
    (ids : List SlurmJobId) (r : Result CommandResult) → Cancelled ids r (scancel_result ids r)
unfolding scancel_result
scancel_result-Cancelled ids (err e) = command_failed e
scancel_result-Cancelled ids (ok res) = elim (Bool-cases (is_zero res.return_code)) [
  | inl y ↦ rw y (all_cancelled res (is_zero-pos res.return_code y))
  | inr n ↦ rw n (refused res _ (is_zero-other res.return_code n) refl refl refl refl)
]

-- The jobs chosen in the world `u`: read among the payloads, those of the flow run, and each marked
-- `CANCELLING` by the world `v`, without a command.
pub record Chosen (env : Env) (hpc run : Text) (ids : List SlurmJobId) (cmds : List Command)
    (u v : World) : Type 0 where
  pub payloads : List JobStatus
  pub listed : World
  pub are_read : list_status_payloads env hpc u ≡ (returns payloads, listed)
  pub are_own : (id : SlurmJobId) → In id ids ↔ IsOwnOf run payloads id
  pub are_marked : Marked env hpc ids listed v
  pub none_issued : v.issued ≡ cmds

-- An end of steps 2 and 3 from the world `u`, in which `cmds` were issued.
pub data FoldEnd (env : Env) (hpc run : Text) (cmds : List Command) (u : World)
    : Outcome (Result (List SlurmJobId)) × World → Type 0 where
  none_owned :
      (v : World) → Chosen env hpc run [] cmds u v → FoldEnd env hpc run cmds u (returns (ok []), v)
  answered :
      (id : SlurmJobId) (ids : List SlurmJobId) (r : Result CommandResult)
      (a : Result (List SlurmJobId)) (m v : World)
      → Chosen env hpc run (id ∷ ids) cmds u m
      → env.shell m.events (scancel_command (id ∷ ids)) ≡ returns r
      → v.issued ≡ cmds ++ scancel_command (id ∷ ids) ∷ []
      → Cancelled (id ∷ ids) r a
      → FoldEnd env hpc run cmds u (returns a, v)
  not_run :
      (id : SlurmJobId) (ids : List SlurmJobId) (e : Exc) (m v : World)
      → Chosen env hpc run (id ∷ ids) cmds u m
      → env.shell m.events (scancel_command (id ∷ ids)) ≡ raises e
      → FoldEnd env hpc run cmds u (raises e, v)
  api_failed : (e : Exc) (v : World) → v.issued ≡ cmds → FoldEnd env hpc run cmds u (raises e, v)

module _ (env : Env) (hpc run : Text) (cmds : List Command) (u : World) where
  cancel_all-FoldEnd :
      (ids : List SlurmJobId) (m : World)
      → Chosen env hpc run ids cmds u m
      → FoldEnd env hpc run cmds u (cancel_all env hpc ids m)
  unfolding cancel_all run_cmd
  cancel_all-FoldEnd [] m chosen = none_owned m chosen
  cancel_all-FoldEnd (id ∷ ids) m chosen = go (env.shell m.events (scancel_command (id ∷ ids))) refl
    where
      go :
          (o : Outcome (Result CommandResult))
          → env.shell m.events (scancel_command (id ∷ ids)) ≡ o
          → FoldEnd env hpc run cmds u (cancel_all env hpc (id ∷ ids) m)
      go (returns r) e =
          rw (e, cancel_all, run_cmd)
            (answered id ids r _ m _ chosen e
              (ap (λ c. c ++ scancel_command (id ∷ ids) ∷ []) chosen.none_issued)
              (scancel_result-Cancelled (id ∷ ids) r))
      go (raises x) e = rw (e, cancel_all, run_cmd) (not_run id ids x m _ chosen e)

  fold_jobs-FoldEnd : u.issued ≡ cmds → FoldEnd env hpc run cmds u (fold_jobs env hpc run u)
  unfolding fold_jobs
  fold_jobs-FoldEnd before =
      read (list_status_payloads env hpc u) refl
        ((list_status_payloads-HasIssued env cmds hpc).at u (record { issued_are = before }))
    where
      mark :
          (payloads : List JobStatus) (l : World)
          → list_status_payloads env hpc u ≡ (returns payloads, l)
          → (o : Outcome (Unit {0}) × World) → mark_all env hpc (own_ids run payloads) l ≡ o
          → HasIssued cmds o.1
          → FoldEnd env hpc run cmds u (and_then o (λ x. cancel_all env hpc (own_ids run payloads)))
      mark payloads l listed (raises x, m) e q = api_failed x m q.issued_are
      mark payloads l listed (returns tt, m) e q =
          cancel_all-FoldEnd (own_ids run payloads) m (record {
            payloads = payloads;
            listed = l;
            are_read = listed;
            are_own = λ id. (own_ids_sound run payloads id, own_ids_complete run payloads id);
            are_marked = mark_all-Marked env hpc (own_ids run payloads) l m e;
            none_issued = q.issued_are;
          })

      read :
          (o : Outcome (List JobStatus) × World)
          → list_status_payloads env hpc u ≡ o
          → HasIssued cmds o.1
          → FoldEnd env hpc run cmds u (
              and_then o (λ payloads.
                mark_all env hpc (own_ids run payloads)
                >> cancel_all env hpc (own_ids run payloads)))
      read (raises x, l) e q = api_failed x l q.issued_are
      read (returns payloads, l) e q =
          mark payloads l e (mark_all env hpc (own_ids run payloads) l) refl
            ((mark_all-HasIssued env cmds hpc (own_ids run payloads)).at l q)

-- An end of the guard.
pub data GuardEnd (env : Env) (hpc : Text) (w : World)
    : Outcome (Result (List SlurmJobId)) × World → Type 0 where
  no_signal :
      (v : World)
      → v.issued ≡ w.issued
      → (truthy env.flow_run_id ≡ none) ⊎ (is_signal (env.flow_run w.events) ≡ false)
      → GuardEnd env hpc w (returns (ok []), v)
  signalled :
      (run : Text) (o : Outcome (Result (List SlurmJobId)) × World)
      → truthy env.flow_run_id ≡ some run
      → is_signal (env.flow_run w.events) ≡ true
      → FoldEnd env hpc run w.issued (read_flow_run env w).1 o
      → GuardEnd env hpc w o

guard_in-GuardEnd :
    (env : Env) (hpc : Text) (w : World) (run : Option Text)
    → truthy env.flow_run_id ≡ run
    → GuardEnd env hpc w (guard_in env hpc run w)
unfolding guard_in read_flow_run
guard_in-GuardEnd env hpc w none current = no_signal w refl (inl current)
guard_in-GuardEnd env hpc w (some run) current =
    elim (Bool-cases (is_signal (env.flow_run w.events))) [
      | inl h ↦ rw h (
          signalled run _ current h
            (fold_jobs-FoldEnd env hpc run w.issued (read_flow_run env w).1 refl))
      | inr h ↦ rw h (no_signal _ refl (inr h))
    ]

-- Without a signal of the user the guard answers with no job and issues no command. With one, it
-- reads the payloads, takes the jobs that carry the current flow run and no other, marks each of them
-- `CANCELLING`, and only then issues one scancel of them all: it answers with those jobs where scancel
-- exits with 0, else with an error of its output. With no such job it issues no command. An exception
-- of the API is raised before any command is issued.
pub flow_cancellation_guard-GuardEnd :
    (env : Env) (hpc : Text) (w : World) → GuardEnd env hpc w (flow_cancellation_guard env hpc w)
unfolding flow_cancellation_guard
flow_cancellation_guard-GuardEnd env hpc w =
    guard_in-GuardEnd env hpc w (truthy env.flow_run_id) refl
