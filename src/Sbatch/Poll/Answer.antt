-- ===== src/Sbatch/Poll/Answer.antt =====
-- What the answers of `_poll_completion_once` stand on.
use hpc_relay.Base.{◌≡◌, refl, inl, inr, true, false, Bool-cases, List, [], ◌∷◌, Option, none, some}
use hpc_relay.Exec.{Outcome, returns, raises, and_then, ◌>>=◌, pure}
use hpc_relay.Result.{Exc, OpError, Result, ok, err}
use hpc_relay.Sbatch.Guard.{flow_cancellation_guard}
use hpc_relay.Sbatch.Poll.{Poll, conclude, after_guard, poll_completion_once}
use hpc_relay.Sbatch.Refresh.{try_update_status}
use hpc_relay.Sbatch.Variables.{set_status, read_status, delete_status}
use hpc_relay.Sbatch.World.{Status, slurm, cancelling, Env, World}
use hpc_relay.Slurm.Types.{SlurmJobId, SlurmJobState, cancelled, pending, is_terminal_state}
use hpc_relay.Text.{Text}

-- A round of polling from the world `w`.
pub data PollEnd (env : Env) (hpc : Text) (job_id : SlurmJobId) (w : World)
    : Outcome Poll × World → Type 0 where
  -- the guard cancelled the jobs of the flow run, and the job's status is deleted
  by_guard :
      (id : SlurmJobId) (ids : List SlurmJobId) (g v : World)
      → flow_cancellation_guard env hpc w ≡ (returns (ok (id ∷ ids)), g)
      → delete_status env hpc job_id g ≡ (returns tt, v)
      → PollEnd env hpc job_id w (returns (some (ok cancelled)), v)
  by_error :
      (e : OpError) (g : World)
      → flow_cancellation_guard env hpc w ≡ (returns (err e), g)
      → PollEnd env hpc job_id w (returns (some (err e)), g)
  -- the job's status, read after a refresh, is terminal, and is deleted
  by_status :
      (s : SlurmJobState) (g r u v : World)
      → flow_cancellation_guard env hpc w ≡ (returns (ok []), g)
      → try_update_status env hpc g ≡ (returns tt, r)
      → read_status env hpc job_id r ≡ (returns (some (slurm s)), u)
      → is_terminal_state s ≡ true
      → delete_status env hpc job_id u ≡ (returns tt, v)
      → PollEnd env hpc job_id w (returns (some (ok s)), v)
  goes_on :
      (g r u v : World) (status : Option Status)
      → flow_cancellation_guard env hpc w ≡ (returns (ok []), g)
      → try_update_status env hpc g ≡ (returns tt, r)
      → read_status env hpc job_id r ≡ (returns status, u)
      → ((s : SlurmJobState) → status ≡ some (slurm s) → is_terminal_state s ≡ false)
      → PollEnd env hpc job_id w (returns none, v)
  raised : (e : Exc) (v : World) → PollEnd env hpc job_id w (raises e, v)

module _ (env : Env) (hpc : Text) (job_id : SlurmJobId) (w g : World) where
  deleted :
      (a : SlurmJobState) (u : World)
      → ((v : World)
          → delete_status env hpc job_id u ≡ (returns tt, v)
          → PollEnd env hpc job_id w (returns (some (ok a)), v))
      → (o : Outcome (Unit {0}) × World) → delete_status env hpc job_id u ≡ o
      → PollEnd env hpc job_id w (and_then o (λ x. pure (some (ok a))))
  deleted a u end (returns tt, v) e = end v e
  deleted a u end (raises x, v) e = raised x v

  module _ (quiet : flow_cancellation_guard env hpc w ≡ (returns (ok []), g)) (r : World)
      (refreshed : try_update_status env hpc g ≡ (returns tt, r)) where
    conclude-PollEnd :
        (status : Option Status) (u : World)
        → read_status env hpc job_id r ≡ (returns status, u)
        → PollEnd env hpc job_id w (conclude env hpc job_id status u)
    unfolding conclude
    conclude-PollEnd none u e = stored (set_status env hpc job_id (slurm pending) u)
      where
        stored :
            (o : Outcome (Unit {0}) × World)
            → PollEnd env hpc job_id w (and_then o (λ x. pure none))
        stored (returns tt, v) = goes_on g r u v none quiet refreshed e (λ s q. cc)
        stored (raises x, v) = raised x v
    conclude-PollEnd (some cancelling) u e = goes_on g r u u _ quiet refreshed e (λ s q. cc)
    conclude-PollEnd (some (slurm s)) u e = elim (Bool-cases (is_terminal_state s)) [
      | inl h ↦ rw h (
          deleted s u (λ v d. by_status s g r u v quiet refreshed e h d)
            (delete_status env hpc job_id u) refl)
      | inr h ↦ rw h (goes_on g r u u _ quiet refreshed e (λ t q. cc))
    ]

    read_status-PollEnd :
        (o : Outcome (Option Status) × World)
        → read_status env hpc job_id r ≡ o
        → PollEnd env hpc job_id w (and_then o (conclude env hpc job_id))
    read_status-PollEnd (returns status, u) e = conclude-PollEnd status u e
    read_status-PollEnd (raises x, u) e = raised x u

module _ (env : Env) (hpc : Text) (job_id : SlurmJobId) (w : World) where
  refresh-PollEnd :
      (g : World)
      → flow_cancellation_guard env hpc w ≡ (returns (ok []), g)
      → (o : Outcome (Unit {0}) × World) → try_update_status env hpc g ≡ o
      → PollEnd env hpc job_id w
          (and_then o (λ x. read_status env hpc job_id >>= conclude env hpc job_id))
  refresh-PollEnd g quiet (returns tt, r) e =
      read_status-PollEnd env hpc job_id w g quiet r e (read_status env hpc job_id r) refl
  refresh-PollEnd g quiet (raises x, r) e = raised x r

  guard-PollEnd :
      (o : Outcome (Result (List SlurmJobId)) × World)
      → flow_cancellation_guard env hpc w ≡ o
      → PollEnd env hpc job_id w (and_then o (after_guard env hpc job_id))
  unfolding after_guard
  guard-PollEnd (raises x, g) e = raised x g
  guard-PollEnd (returns (err x), g) e = by_error x g e
  guard-PollEnd (returns (ok (id ∷ ids)), g) e =
      deleted env hpc job_id w g cancelled g (λ v d. by_guard id ids g v e d)
        (delete_status env hpc job_id g) refl
  guard-PollEnd (returns (ok []), g) e = refresh-PollEnd g e (try_update_status env hpc g) refl

-- A round of polling answers only with a terminal state that it has read of its job after a refresh,
-- with the guard's error, or with `CANCELLED` after the guard cancelled the jobs of the flow run. In
-- the first case and the last, the job's variable is deleted before the answer. Without an answer,
-- the status that was read is not terminal.
pub poll_completion_once-PollEnd :
    (env : Env) (hpc : Text) (job_id : SlurmJobId) (w : World)
    → PollEnd env hpc job_id w (poll_completion_once env hpc job_id w)
unfolding poll_completion_once
poll_completion_once-PollEnd env hpc job_id w =
    guard-PollEnd env hpc job_id w (flow_cancellation_guard env hpc w) refl
