-- ===== src/Sbatch/Poll/Told.antt =====
-- A round of `_poll_completion_once` that takes the lease and asks sacct: that a terminal state which
-- sacct gives is answered.
use hpc_relay.Base.{
  ℕ, ◌+◌, In, at_head, in_tail, ◌≡◌, refl, sym, ap, ◌∙◌, ◌⊎◌, inl, inr, true, Bool-cases, List, [],
  ◌∷◌, none, some, arith,
}
use mathlib.Core.Path.{subst}
use hpc_relay.Exec.{Outcome, returns, raises}
use hpc_relay.Result.{Result, ok}
use hpc_relay.Runner.Types.{CommandResult}
use hpc_relay.Sbatch.Poll.{Poll, poll_completion_once}
use hpc_relay.Sbatch.Poll.OnBoard.{
  round_at, round, HasNoSignal, Polled, answered, stopped, poll_completion_once-Polled,
}
use hpc_relay.Sbatch.Refresh.Lease.{lease_in}
use hpc_relay.Sbatch.Refresh.OnBoard.{board_after, end_of, Refreshed, held, asked}
use hpc_relay.Sbatch.Refresh.Asked.{asked_ids, LeaseUntagged, asked_ids-renewed}
use hpc_relay.Sbatch.Refresh.Recorded.{record_states}
use hpc_relay.Sbatch.Refresh.Slot.{lease_variable}
use hpc_relay.Sbatch.Variables.{is_expired, set_var}
use hpc_relay.Sbatch.Variables.Board.{Board, update, board_of, IsQuiet}
use hpc_relay.Sbatch.Variables.Lookup.{same_refl}
use hpc_relay.Sbatch.World.{slurm, Env, World, run_cmd}
use hpc_relay.Slurm.Sacct.{read_states, answer, sacct_command, get_slurm_job_states}
use hpc_relay.Slurm.Sacct.Rows.{AnswersAll, no_more, answer_for, read_states-AnswersAll}
use hpc_relay.Slurm.Types.{SlurmJobId, SlurmJobState, SlurmJobInfo, is_terminal_state}
use hpc_relay.Text.{Text, same, same_iff}

-- Whenever sacct is run for `ids`, it prints what is read as a list in which the job has the state.
pub record Reports (env : Env) (ids : List SlurmJobId) (job_id : SlurmJobId) (s : SlurmJobState)
    : Type 0 where
  pub res : CommandResult
  pub infos : List SlurmJobInfo
  pub printed : (n : ℕ) → env.shell n (sacct_command ids) ≡ returns (ok res)
  pub reads_as : read_states ids res.stdout ≡ returns (ok infos)
  pub has_state : (i : SlurmJobInfo) → In i infos → i.job_id ≡ job_id → i.state ≡ s

-- The job is among the infos.
abbrev IsIn : SlurmJobId → List SlurmJobInfo → Type 0
IsIn job_id infos = (i : SlurmJobInfo) × In i infos × (i.job_id ≡ job_id)

AnswersAll-IsIn :
    {expected : List SlurmJobId} {lines : List Text} (job_id : SlurmJobId) (ids : List SlurmJobId)
    (infos : List SlurmJobInfo)
    → AnswersAll expected lines ids infos
    → In job_id ids
    → IsIn job_id infos
AnswersAll-IsIn job_id _ _ no_more i = elim i [ ]
AnswersAll-IsIn job_id _ _ (answer_for {info = info} a more) (at_head e) =
    (info, at_head refl, a.job_id ∙ sym e)
AnswersAll-IsIn job_id _ _ (answer_for a more) (in_tail m) =
    let (i, k, e) = AnswersAll-IsIn job_id _ _ more m in (i, in_tail k, e)

-- The last state that is recorded for a job is the one that stays.
record_states-at :
    (job_id : SlurmJobId) (s : SlurmJobState) (infos : List SlurmJobInfo) (board : Board)
    → ((i : SlurmJobInfo) → In i infos → i.job_id ≡ job_id → i.state ≡ s)
    → (board job_id ≡ some (slurm s)) ⊎ IsIn job_id infos
    → record_states infos board job_id ≡ some (slurm s)
unfolding record_states update
record_states-at job_id s [] board all_s (inl h) = h
record_states-at job_id s [] board all_s (inr (i, m, e)) = elim m [ ]
record_states-at job_id s (i ∷ infos) board all_s known =
    record_states-at job_id s infos (update i.job_id (some (slurm i.state)) board)
      (λ j m e. all_s j (in_tail m) e) (next known)
  where
    next :
        (board job_id ≡ some (slurm s)) ⊎ IsIn job_id (i ∷ infos)
        → (update i.job_id (some (slurm i.state)) board job_id ≡ some (slurm s)) ⊎ IsIn job_id infos
    next (inl h) = elim (Bool-cases (same i.job_id job_id)) [
      | inl y ↦
          rw y (
            inl
              (ap (λ t. some (slurm t)) (all_s i (at_head refl) ((same_iff i.job_id job_id).0 y))))
      | inr z ↦ rw z (inl h)
    ]
    next (inr (j, at_head q, e)) =
        let k : same i.job_id job_id ≡ true =
          (same_iff i.job_id job_id).1 (ap (λ x. x.job_id) (sym q) ∙ e) in
        rw k
          (inl (ap (λ t. some (slurm t)) (all_s i (at_head refl) (ap (λ x. x.job_id) (sym q) ∙ e))))
    next (inr (j, in_tail m, e)) = inr (j, m, e)

module _ (env : Env) (hpc : Text) (job_id : SlurmJobId) (s : SlurmJobState) where
  get_slurm_job_states-Reports :
      (ids : List SlurmJobId) (u v : World) (r : Outcome (Result (List SlurmJobInfo)))
      → In job_id ids
      → (told : Reports env ids job_id s) → get_slurm_job_states (run_cmd env) ids u ≡ (r, v)
      → r ≡ returns (ok told.infos)
  unfolding get_slurm_job_states run_cmd answer
  get_slurm_job_states-Reports [] u v r i told h = elim i [ ]
  get_slurm_job_states-Reports (id ∷ ids) u v r i told h =
      ground (arith, h, told.printed u.events, told.reads_as)

  -- What a refresh that was asked for leaves as the status of the job.
  module _ (w g : World) (same_vars : g.vars ≡ w.vars) (same_slept : g.slept ≡ w.slept)
      (over : (n : ℕ) → is_expired (lease_in hpc w.vars) (env.clock n + w.slept) ≡ true)
      (none_tagged : LeaseUntagged hpc w.vars) (listed : In job_id (asked_ids hpc w.vars))
      (told : Reports env (asked_ids hpc w.vars) job_id s) where
    still_over : (n : ℕ) → is_expired (lease_in hpc g.vars) (env.clock n + g.slept) ≡ true
    still_over n =
        ap (λ vs. is_expired (lease_in hpc vs) (env.clock n + g.slept)) same_vars
        ∙ ap (λ t. is_expired (lease_in hpc w.vars) (env.clock n + t)) same_slept
        ∙ over n

    told-IsIn : IsIn job_id told.infos
    told-IsIn =
        AnswersAll-IsIn job_id _ _
          (read_states-AnswersAll (asked_ids hpc w.vars) told.res.stdout told.infos told.reads_as)
          listed

    Refreshed-told :
        (o : Outcome (Unit {0})) (r : World)
        → Refreshed env hpc g (o, r)
        → (o ≡ returns tt) × (board_of hpc r.vars job_id ≡ some (slurm s))
    unfolding board_after end_of
    Refreshed-told _ r (held n _ is_held k) = absurd (cc (still_over n, is_held))
    Refreshed-told o r (asked n now u v _ a _ is_over renewed lookup ends k) =
        let ids_are : asked_ids hpc u.vars ≡ asked_ids hpc w.vars =
          ap (asked_ids hpc) (renewed ∙ ap (set_var (lease_variable hpc now)) same_vars)
          ∙ asked_ids-renewed hpc now w.vars none_tagged in
        let got : a ≡ returns (ok told.infos) =
          get_slurm_job_states-Reports (asked_ids hpc w.vars) u v a listed told
            (subst (λ ids. get_slurm_job_states (run_cmd env) ids u ≡ (a, v)) ids_are lookup) in
        (
          ends ∙ ap end_of got,
          ap (λ b. b job_id) (k ∙ ap (λ x. board_after x (board_of hpc g.vars)) got)
              ∙ record_states-at job_id s told.infos (board_of hpc g.vars) told.has_state
                  (inr told-IsIn),
        )

round-ends :
    (job_id : SlurmJobId) (s : SlurmJobState) (board : Board)
    → board job_id ≡ some (slurm s)
    → is_terminal_state s ≡ true
    → round job_id board ≡ (some (ok s), update job_id none board)
unfolding round_at
round-ends job_id s board status ends = rw (status, ends) refl

update-none : (job_id : SlurmJobId) (board : Board) → update job_id none board job_id ≡ none
unfolding update
update-none job_id board = rw (same_refl job_id) refl

-- The round answers the state, and the job's status is deleted.
pub IsAnswered : Env → Text → SlurmJobId → SlurmJobState → World → Type 0
IsAnswered env hpc job_id s w =
    (v : World) × (poll_completion_once env hpc job_id w ≡ (returns (some (ok s)), v))
    × (board_of hpc v.vars job_id ≡ none)

-- While no other task writes, the server answers and no user has cancelled the flow run: where the
-- lease is over and carries no tags, the job is among the running ones that the variables list, and
-- sacct gives it a terminal state, a round of polling returns this state, and deletes the job's
-- variable.
pub poll_completion_once-IsAnswered :
    (env : Env) (hpc : Text) (job_id : SlurmJobId) (s : SlurmJobState) (w : World)
    → IsQuiet env
    → HasNoSignal env
    → is_terminal_state s ≡ true
    → ((n : ℕ) → is_expired (lease_in hpc w.vars) (env.clock n + w.slept) ≡ true)
    → LeaseUntagged hpc w.vars
    → In job_id (asked_ids hpc w.vars)
    → Reports env (asked_ids hpc w.vars) job_id s
    → IsAnswered env hpc job_id s w
unfolding IsAnswered
poll_completion_once-IsAnswered env hpc job_id s w quiet calm ends over none_tagged listed told =
    go (poll_completion_once env hpc job_id w)
      (poll_completion_once-Polled env hpc quiet calm job_id w)
  where
    go :
        (o : Outcome Poll × World)
        → Polled env hpc job_id w o
        → (v : World) × (o ≡ (returns (some (ok s)), v)) × (board_of hpc v.vars job_id ≡ none)
    go _ (stopped g v e h k refreshed) = absurd (
        cc (
          (Refreshed-told env hpc job_id s w g h k over none_tagged listed told (raises e) v
            refreshed).0))
    go _ (answered g r v p h k refreshed q b) =
        let (_, status) =
          Refreshed-told env hpc job_id s w g h k over none_tagged listed told (returns tt) r
            refreshed in
        let spec = round-ends job_id s (board_of hpc r.vars) status ends in
        (
          v,
          ap (λ x. (returns x, v)) (q ∙ ap (λ x. x.0) spec),
          ap (λ x. x job_id) (b ∙ ap (λ x. x.1) spec) ∙ update-none job_id (board_of hpc r.vars),
        )
