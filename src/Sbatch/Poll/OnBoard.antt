-- ===== src/Sbatch/Poll/OnBoard.antt =====
-- `_poll_completion_once`, while no user has signalled, no other task writes and the server answers,
-- against a round of polling on the statuses that the variables stand for.
use hpc_relay.Base.{
  ℕ, ◌≡◌, refl, sym, ap, ◌∙◌, inl, inr, false, Bool-cases, List, [], Option, none, some,
  if◌then◌else◌,
}
use hpc_relay.Exec.{Outcome, returns, raises, pure, ◌>>=◌, and_then}
use hpc_relay.Result.{Exc, Result, ok}
use hpc_relay.Sbatch.Guard.{is_signal, guard_in, flow_cancellation_guard}
use hpc_relay.Sbatch.Poll.{Poll, conclude, after_guard, poll_completion_once}
use hpc_relay.Sbatch.Refresh.{try_update_status}
use hpc_relay.Sbatch.Refresh.OnBoard.{Refreshed, try_update_status-Refreshed}
use hpc_relay.Sbatch.Refresh.Recorded.{Leaves, leaves, set_status-Leaves}
use hpc_relay.Sbatch.Variables.{truthy, set_status, read_status, delete_status}
use hpc_relay.Sbatch.Variables.Board.{
  Board, update, deletes, reads, step, board_of, IsQuiet, do_op, Refines, refines,
  delete_status-Refines, read_status-Refines,
}
use hpc_relay.Sbatch.World.{Status, slurm, cancelling, Env, World}
use hpc_relay.Slurm.Types.{SlurmJobId, pending, is_terminal_state}
use hpc_relay.Text.{Text}

-- A round on the statuses: its answer, and the statuses behind it.
unfoldable pub round_at : SlurmJobId → Option Status → Board → Poll × Board
round_at job_id none board = (none, update job_id (some (slurm pending)) board)
round_at job_id (some cancelling) board = (none, board)
round_at job_id (some (slurm s)) board =
    if is_terminal_state s then (some (ok s), update job_id none board) else (none, board)

abbrev pub round : SlurmJobId → Board → Poll × Board
round job_id board = round_at job_id (board job_id) board

-- No user has cancelled or deleted the flow run.
pub record HasNoSignal (env : Env) : Type 0 where
  pub unsignalled : (n : ℕ) → is_signal (env.flow_run n) ≡ false

-- A round of polling from the world `w`, whose refresh begins in `g`.
pub data Polled (env : Env) (hpc : Text) (job_id : SlurmJobId) (w : World)
    : Outcome Poll × World → Type 0 where
  answered :
      (g r v : World) (p : Poll)
      → g.vars ≡ w.vars
      → g.slept ≡ w.slept
      → Refreshed env hpc g (returns tt, r)
      → p ≡ (round job_id (board_of hpc r.vars)).0
      → board_of hpc v.vars ≡ (round job_id (board_of hpc r.vars)).1
      → Polled env hpc job_id w (returns p, v)
  stopped :
      (g v : World) (e : Exc)
      → g.vars ≡ w.vars
      → g.slept ≡ w.slept
      → Refreshed env hpc g (raises e, v)
      → Polled env hpc job_id w (raises e, v)

-- The guard lets the task pass, with the variables and the time slept as they were.
data Passes (w : World) : Outcome (Result (List SlurmJobId)) × World → Type 0 where
  passes : (v : World) → v.vars ≡ w.vars → v.slept ≡ w.slept → Passes w (returns (ok []), v)

module _ (env : Env) (hpc : Text) (quiet : IsQuiet env) where
  delete_status-Leaves :
      (job_id : SlurmJobId) (w : World)
      → Leaves hpc (update job_id none (board_of hpc w.vars)) (delete_status env hpc job_id w)
  unfolding do_op step
  delete_status-Leaves job_id w =
      go (delete_status env hpc job_id w) (delete_status-Refines env hpc quiet job_id w)
    where
      go :
          (o : Outcome (Unit {0}) × World)
          → Refines env hpc
              (step (deletes job_id) (board_of hpc w.vars))
              (and_then o (λ _. pure none))
          → Leaves hpc (update job_id none (board_of hpc w.vars)) o
      go (returns x, v) (refines a u e h) = leaves v h
      go (raises x, v) h = elim h [ ]

  guard-Passes : HasNoSignal env → (w : World) → Passes w (flow_cancellation_guard env hpc w)
  unfolding flow_cancellation_guard
  guard-Passes calm w = go (truthy env.flow_run_id)
    where
      go : (id : Option Text) → Passes w (guard_in env hpc id w)
      go none = passes w refl refl
      go (some id) = rw (calm.unsignalled w.events) (passes _ (quiet.still w.events w.vars) refl)

  module _ (job_id : SlurmJobId) (w g r : World) (same_vars : g.vars ≡ w.vars)
      (same_slept : g.slept ≡ w.slept) (refreshed : Refreshed env hpc g (returns tt, r)) where
    as_read :
        (s : Option Status) (p : Poll) (v : World)
        → s ≡ board_of hpc r.vars job_id
        → p ≡ (round_at job_id s (board_of hpc r.vars)).0
        → board_of hpc v.vars ≡ (round_at job_id s (board_of hpc r.vars)).1
        → Polled env hpc job_id w (returns p, v)
    as_read s p v e q h =
        answered g r v p same_vars same_slept refreshed
          (q ∙ ap (λ x. (round_at job_id x (board_of hpc r.vars)).0) e)
          (h ∙ ap (λ x. (round_at job_id x (board_of hpc r.vars)).1) e)

    left :
        (s : Option Status) (p : Poll) (b : Board) (o : Outcome (Unit {0}) × World)
        → s ≡ board_of hpc r.vars job_id
        → round_at job_id s (board_of hpc r.vars) ≡ (p, b)
        → Leaves hpc b o
        → Polled env hpc job_id w (and_then o (λ x. pure p))
    left s p b _ e q (leaves v h) =
        as_read s p v e (sym (ap (λ x. x.0) q)) (h ∙ sym (ap (λ x. x.1) q))

    conclude-Polled :
        (s : Option Status) (u : World)
        → s ≡ board_of hpc r.vars job_id
        → board_of hpc u.vars ≡ board_of hpc r.vars
        → Polled env hpc job_id w (conclude env hpc job_id s u)
    unfolding conclude round_at
    conclude-Polled none u e h =
        left none none _ (set_status env hpc job_id (slurm pending) u) e
          (ap (λ b. (none, update job_id (some (slurm pending)) b)) (sym h))
          (set_status-Leaves env hpc quiet job_id (slurm pending) u)
    conclude-Polled (some cancelling) u e h = as_read (some cancelling) none u e refl h
    conclude-Polled (some (slurm s)) u e h = elim (Bool-cases (is_terminal_state s)) [
      | inl t ↦ rw t (
          left (some (slurm s)) (some (ok s)) _ (delete_status env hpc job_id u) e
            (rw t (ap (λ b. (some (ok s), update job_id none b)) (sym h)))
            (delete_status-Leaves job_id u))
      | inr t ↦ rw t (as_read (some (slurm s)) none u e (rw t refl) (rw t h))
    ]

    read-Polled :
        (o : Outcome (Option Status) × World)
        → Refines env hpc (step (reads job_id) (board_of hpc r.vars)) o
        → Polled env hpc job_id w (and_then o (conclude env hpc job_id))
    unfolding step
    read-Polled _ (refines s u e h) = conclude-Polled s u e h

  -- While no other task writes, the server answers and no user has cancelled the flow run, a round of
  -- polling is a round on the statuses that the variables stand for. Its refresh changes nothing where
  -- the lease that it sees is not over; otherwise it asks sacct once for the jobs listed as running,
  -- and records what that answers. Then a terminal status of the job is answered and deleted, one that
  -- is missing is recorded as PENDING, and any other is left. It raises only what the lookup raises.
  pub poll_completion_once-Polled :
      HasNoSignal env
      → (job_id : SlurmJobId) (w : World)
      → Polled env hpc job_id w (poll_completion_once env hpc job_id w)
  unfolding poll_completion_once after_guard do_op
  poll_completion_once-Polled calm job_id w =
      guarded (flow_cancellation_guard env hpc w) (guard-Passes calm w)
    where
      then_read :
          (g : World) (o : Outcome (Unit {0}) × World)
          → g.vars ≡ w.vars
          → g.slept ≡ w.slept
          → Refreshed env hpc g o
          → Polled env hpc job_id w
              (and_then o (λ x. read_status env hpc job_id >>= conclude env hpc job_id))
      then_read g (returns x, r) e s h =
          read-Polled job_id w g r e s h (read_status env hpc job_id r)
            (read_status-Refines env hpc quiet job_id r)
      then_read g (raises x, v) e s h = stopped g v x e s h

      guarded :
          (o : Outcome (Result (List SlurmJobId)) × World)
          → Passes w o
          → Polled env hpc job_id w (and_then o (after_guard env hpc job_id))
      guarded _ (passes g e s) =
          then_read g (try_update_status env hpc g) e s
            (try_update_status-Refreshed env hpc quiet g)
