-- ===== src/Sbatch/Refresh/OnBoard.antt =====
-- `_try_update_status`, while no other task writes and the server answers: what it makes of the
-- statuses that the variables stand for.
use hpc_relay.Base.{
  ℕ, ◌+◌, ◌≡◌, refl, sym, ap, ◌∙◌, inl, inr, Bool, true, false, not, Bool-cases, List, [], ◌∷◌,
  if◌then◌else◌,
}
use mathlib.Core.Path.{subst}
use hpc_relay.Exec.{Outcome, returns, raises, pure, ◌>>=◌, ◌>>◌, and_then}
use hpc_relay.Result.{Result, ok, err}
use hpc_relay.Runner.Types.{CommandResult}
use hpc_relay.Sbatch.Refresh.{
  ensure_concurrency_limit, with_slot, take_lease, store_states, store_answer, refresh_jobs,
  refresh, try_update_status, limit_name,
}
use hpc_relay.Sbatch.Refresh.Lease.{lease_in}
use hpc_relay.Sbatch.Variables.{
  is_expired, list_status_payloads, list_running_job_ids, lease_expired, set_var,
}
use hpc_relay.Sbatch.Variables.Board.{Board, board_of, IsQuiet}
use hpc_relay.Sbatch.World.{Env, World, api_read, run_cmd, tick}
use hpc_relay.Slurm.Sacct.{answer, sacct_command, get_slurm_job_states}
use hpc_relay.Slurm.Types.{SlurmJobId, SlurmJobInfo}
use hpc_relay.Text.{Text}
use hpc_relay.Sbatch.Refresh.Slot.{
  lease_variable, Stays, stays, seen, Saw, saw, Taken, renewed, kept, lease_expired-Saw,
  ensure_concurrency_limit-Stays, seen_same, with_slot-Taken,
}
use hpc_relay.Sbatch.Refresh.Asked.{asked_ids}
use hpc_relay.Sbatch.Refresh.Recorded.{
  record_states, Leaves, leaves, board_of-set_var, store_states-Leaves,
}

-- What a lookup makes of the statuses, and how the refresh ends after it.
unfoldable pub board_after : Outcome (Result (List SlurmJobInfo)) → Board → Board
unfolding record_states
board_after (returns (ok infos)) board = record_states infos board
board_after (returns (err e)) board = board
board_after (raises e) board = board

unfoldable pub end_of : Outcome (Result (List SlurmJobInfo)) → Outcome (Unit {0})
end_of (returns r) = returns tt
end_of (raises e) = raises e

-- An end of a refresh from the world `w`.
pub data Refreshed (env : Env) (hpc : Text) (w : World) : Outcome (Unit {0}) × World → Type 0 where
  -- the lease was not over
  held :
      (n : ℕ) (v : World)
      → is_expired (lease_in hpc w.vars) (env.clock n + w.slept) ≡ false
      → v.vars ≡ w.vars
      → Refreshed env hpc w (returns tt, v)
  -- it was over and is renewed, and sacct was asked for the running jobs
  asked :
      (n now : ℕ) (u v t : World) (r : Outcome (Result (List SlurmJobInfo)))
      (o : Outcome (Unit {0}))
      → is_expired (lease_in hpc w.vars) (env.clock n + w.slept) ≡ true
      → u.vars ≡ set_var (lease_variable hpc now) w.vars
      → get_slurm_job_states (run_cmd env) (asked_ids hpc u.vars) u ≡ (r, v)
      → o ≡ end_of r
      → board_of hpc t.vars ≡ board_after r (board_of hpc w.vars)
      → Refreshed env hpc w (o, t)

module _ (env : Env) (hpc : Text) (quiet : IsQuiet env) where
  get_slurm_job_states-vars :
      (ids : List SlurmJobId) (w : World)
      → (get_slurm_job_states (run_cmd env) ids w).1.vars ≡ w.vars
  unfolding get_slurm_job_states run_cmd answer
  get_slurm_job_states-vars [] w = refl
  get_slurm_job_states-vars (id ∷ ids) w = go (env.shell w.events (sacct_command (id ∷ ids)))
    where
      go :
          (o : Outcome (Result CommandResult))
          → (and_then
              (o, (run_cmd env (sacct_command (id ∷ ids)) w).1)
              (answer (run_cmd env) (id ∷ ids))).1.vars
            ≡ w.vars
      go (returns (ok res)) = quiet.still w.events w.vars
      go (returns (err e)) = quiet.still w.events w.vars
      go (raises e) = quiet.still w.events w.vars

  store_answer-end :
      (r : Result (List SlurmJobInfo)) (w : World)
      → Leaves hpc (board_after (returns r) (board_of hpc w.vars)) (store_answer env hpc r w)
  unfolding store_answer board_after
  store_answer-end (ok infos) w = store_states-Leaves env hpc quiet infos w
  store_answer-end (err e) w = leaves w refl

  refresh_jobs-then :
      (ids : List SlurmJobId) (w : World)
      → and_then (get_slurm_job_states (run_cmd env) ids w) (store_answer env hpc)
        ≡ refresh_jobs env hpc ids w
  unfolding refresh_jobs get_slurm_job_states store_answer store_states
  refresh_jobs-then [] w = refl
  refresh_jobs-then (id ∷ ids) w = refl

  after_lookup :
      (u v : World) (r : Outcome (Result (List SlurmJobInfo)))
      → get_slurm_job_states (run_cmd env) (asked_ids hpc u.vars) u ≡ (r, v)
      → board_of hpc v.vars ≡ board_of hpc u.vars
  after_lookup u v r h =
      ap (λ o. board_of hpc o.1.vars) (sym h)
      ∙ ap (board_of hpc) (get_slurm_job_states-vars (asked_ids hpc u.vars) u)

  module _ (w : World) (n now : ℕ) (over : seen env hpc w n ≡ true) where
    still_board :
        (u : World)
        → u.vars ≡ set_var (lease_variable hpc now) w.vars
        → board_of hpc u.vars ≡ board_of hpc w.vars
    still_board u e =
        ap (board_of hpc) e ∙ board_of-set_var hpc (lease_variable hpc now) w.vars refl

    looked_up :
        (u : World)
        → u.vars ≡ set_var (lease_variable hpc now) w.vars
        → (o : Outcome (Result (List SlurmJobInfo)) × World)
        → get_slurm_job_states (run_cmd env) (asked_ids hpc u.vars) u ≡ o
        → Refreshed env hpc w (and_then o (store_answer env hpc))
    unfolding end_of board_after
    looked_up u same_vars (raises e, v) h =
        asked n now u v v (raises e) (raises e) over same_vars h refl
          (after_lookup u v (raises e) h ∙ still_board u same_vars)
    looked_up u same_vars (returns r, v) h = go (store_answer env hpc r v) (store_answer-end r v)
      where
        go :
            (o : Outcome (Unit {0}) × World)
            → Leaves hpc (board_after (returns r) (board_of hpc v.vars)) o
            → Refreshed env hpc w o
        go _ (leaves t k) = asked n now u v t (returns r) (returns tt) over same_vars h refl (
            k
            ∙ ap (board_after (returns r))
                (after_lookup u v (returns r) h ∙ still_board u same_vars))

    refresh-Refreshed :
        (t : World)
        → t.vars ≡ set_var (lease_variable hpc now) w.vars
        → Refreshed env hpc w (refresh env hpc t)
    unfolding refresh list_running_job_ids list_status_payloads api_read
    refresh-Refreshed t e =
        let u = tick t t.vars in
        let ids = asked_ids hpc t.vars in
        rw
          (
            refresh,
            list_running_job_ids,
            list_status_payloads,
            api_read,
            quiet.up t.events,
            quiet.still t.events t.vars,
          )
          (subst (Refreshed env hpc w) (refresh_jobs-then ids u)
            (looked_up u e (get_slurm_job_states (run_cmd env) ids u) refl))

  -- While no other task writes and the server answers, a refresh leaves the statuses as they were,
  -- where it has seen a lease that is not over; otherwise it asks sacct once for the jobs that the
  -- variables list as running, and leaves the statuses with the states that it gave put in, in their
  -- order. It raises only what the lookup raises.
  pub try_update_status-Refreshed : (w : World) → Refreshed env hpc w (try_update_status env hpc w)
  unfolding try_update_status
  try_update_status-Refreshed w = read (lease_expired env hpc w) (lease_expired-Saw env hpc quiet w)
    where
      in_slot :
          (u : World) (o : Outcome Bool × World)
          → u.vars ≡ w.vars
          → u.slept ≡ w.slept
          → Taken env hpc u o
          → Refreshed env hpc w (and_then o (λ taken. if taken then refresh env hpc else pure tt))
      in_slot u _ e s (renewed n now v h k) =
          refresh-Refreshed w n now (seen_same env hpc quiet w u e s n ∙ h) v
            (k ∙ ap (set_var (lease_variable hpc now)) e)
      in_slot u _ e s (kept n v h k) = held n v (seen_same env hpc quiet w u e s n ∙ h) (k ∙ e)

      ensured :
          (o : Outcome (Unit {0}) × World)
          → (v : World) → v.vars ≡ w.vars
          → v.slept ≡ w.slept
          → Stays v o
          → Refreshed env hpc w (
              and_then o (λ _. with_slot env (take_lease env hpc) >>= λ taken.
              if taken then refresh env hpc else pure tt))
      ensured _ v e s (stays a u f q) =
          in_slot u (with_slot env (take_lease env hpc) u) (f ∙ e) (q ∙ s)
            (with_slot-Taken env hpc quiet u)

      read :
          (o : Outcome Bool × World)
          → Saw env hpc w o
          → Refreshed env hpc w (
              and_then o (λ expired.
                if not expired
                then pure tt
                else (ensure_concurrency_limit env (limit_name hpc)
                    >> (with_slot env (take_lease env hpc) >>= λ taken.
                        if taken then refresh env hpc else pure tt))))
      read _ (saw n v e s) = elim (Bool-cases (seen env hpc w n)) [
        | inl h ↦ rw h (
            ensured (ensure_concurrency_limit env (limit_name hpc) v) v e s
              (ensure_concurrency_limit-Stays env hpc quiet (limit_name hpc) v))
        | inr h ↦ rw h (held n v h e)
      ]
