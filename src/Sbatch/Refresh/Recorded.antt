-- ===== src/Sbatch/Refresh/Recorded.antt =====
-- What `_try_update_status` stores, while no other task writes and the server answers, as it changes
-- the statuses that the variables stand for.
use hpc_relay.Base.{◌≡◌, refl, ap, ◌∙◌, ◌≢◌, List, [], ◌∷◌, none, some, arith}
use mathlib.Core.Path.{fun_ext, subst}
use hpc_relay.Exec.{Outcome, returns, raises, pure, and_then}
use hpc_relay.Sbatch.Refresh.{store_states}
use hpc_relay.Sbatch.Variables.{
  set_status, lease_var_name, status_var_name, set_var, validate_status,
}
use hpc_relay.Sbatch.Variables.Board.{
  Board, update, sets, step, status_in, board_of, IsQuiet, do_op, Refines, refines,
  set_status-Refines,
}
use hpc_relay.Sbatch.Variables.Lookup.{get_var-set_var_other}
use hpc_relay.Sbatch.World.{Status, slurm, Variable, Env, World}
use hpc_relay.Slurm.Types.{SlurmJobId, SlurmJobInfo}
use hpc_relay.Text.{Text}

-- The statuses behind the states that sacct gave.
unfoldable pub record_states : List SlurmJobInfo → Board → Board
record_states [] board = board
record_states (i ∷ infos) board = record_states infos (update i.job_id (some (slurm i.state)) board)

-- An end with this board.
pub data Leaves (hpc : Text) (board : Board) : Outcome (Unit {0}) × World → Type 0 where
  leaves : (v : World) → board_of hpc v.vars ≡ board → Leaves hpc board (returns tt, v)

-- The lease is no status.
pub lease_var_name-differ :
    (hpc : Text) (job_id : SlurmJobId) → status_var_name hpc job_id ≢ lease_var_name hpc
unfolding status_var_name lease_var_name
lease_var_name-differ hpc job_id h = absurd (ground arith)

pub board_of-set_var :
    (hpc : Text) (v : Variable) (vs : List Variable)
    → v.name ≡ lease_var_name hpc
    → board_of hpc (set_var v vs) ≡ board_of hpc vs
unfolding board_of
board_of-set_var hpc v vs e = fun_ext (λ job_id.
    let differ : status_var_name hpc job_id ≢ v.name =
      λ q. lease_var_name-differ hpc job_id (q ∙ e) in
    ap (λ x. status_in (validate_status x))
      (get_var-set_var_other (status_var_name hpc job_id) v vs differ))

module _ (env : Env) (hpc : Text) (quiet : IsQuiet env) where
  pub set_status-Leaves :
      (job_id : SlurmJobId) (s : Status) (w : World)
      → Leaves hpc (update job_id (some s) (board_of hpc w.vars)) (set_status env hpc job_id s w)
  unfolding do_op step
  set_status-Leaves job_id s w =
      go (set_status env hpc job_id s w) (set_status-Refines env hpc quiet job_id s w)
    where
      go :
          (o : Outcome (Unit {0}) × World)
          → Refines env hpc
              (step (sets job_id s) (board_of hpc w.vars))
              (and_then o (λ _. pure none))
          → Leaves hpc (update job_id (some s) (board_of hpc w.vars)) o
      go (returns x, v) (refines a u e h) = leaves v h
      go (raises x, v) h = elim h [ ]

  pub store_states-Leaves :
      (infos : List SlurmJobInfo) (w : World)
      → Leaves hpc (record_states infos (board_of hpc w.vars)) (store_states env hpc infos w)
  unfolding store_states record_states
  store_states-Leaves [] w = leaves w refl
  store_states-Leaves (i ∷ infos) w =
      go (set_status env hpc i.job_id (slurm i.state) w)
        (set_status-Leaves i.job_id (slurm i.state) w) (store_states-Leaves infos)
    where
      go :
          (o : Outcome (Unit {0}) × World)
          → Leaves hpc (update i.job_id (some (slurm i.state)) (board_of hpc w.vars)) o
          → ((v : World)
              → Leaves hpc
                  (record_states infos (board_of hpc v.vars))
                  (store_states env hpc infos v))
          → Leaves hpc
              (record_states (i ∷ infos) (board_of hpc w.vars))
              (and_then o (λ _. store_states env hpc infos))
      go _ (leaves v h) more =
          subst (λ b. Leaves hpc (record_states infos b) (store_states env hpc infos v)) h (more v)
