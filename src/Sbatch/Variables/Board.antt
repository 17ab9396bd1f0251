-- ===== src/Sbatch/Variables/Board.antt =====
-- The status variables of one HPC as what they stand for: the status of each job. The operations on
-- them, while no other task is at work and the server answers, are those on a finite map.
use hpc_relay.Base.{
  ℕ, ◌≡◌, refl, ap, sym, ◌∙◌, ◌≢◌, inl, inr, List, [], ◌∷◌, ◌++◌, Option, none, some, if◌then◌else◌,
  arith, Bool-cases,
}
use mathlib.Core.Path.{fun_ext, subst}
use hpc_relay.Exec.{Outcome, returns, Exec, pure, ◌>>=◌, ◌>>◌, and_then}
use hpc_relay.Sbatch.Variables.Lookup.{same_refl, same-differ}
use hpc_relay.Sbatch.Variables.Stored.{payload_in, SetStatus, stores, fails, set_status-SetStatus}
use hpc_relay.Sbatch.Variables.{
  get_var, unset_var, validate_status, status_var_name, read_status_payload, set_status,
  read_status, delete_status,
}
use hpc_relay.Sbatch.World.{Status, JobStatus, Variable, Env, World, api_read, api_write}
use hpc_relay.Slurm.Types.{SlurmJobId}
use hpc_relay.Text.{Text, codes, same, same_iff}

-- The specification: the status of each job.
abbrev pub Board : Type 0
Board = SlurmJobId → Option Status

unfoldable pub update : SlurmJobId → Option Status → Board → Board
update job_id s board other = if same job_id other then s else board other

abbrev pub status_in : Option JobStatus → Option Status
status_in none = none
status_in (some p) = some p.status

-- What the variables stand for.
unfoldable pub board_of : Text → List Variable → Board
board_of hpc vs job_id = status_in (payload_in hpc job_id vs)

pub data Op : Type 0 where
  sets : SlurmJobId → Status → Op
  deletes reads : SlurmJobId → Op

-- An operation on the specification: what is read, and the board behind it.
unfoldable pub step : Op → Board → Option Status × Board
unfolding update
step (sets job_id s) board = (none, update job_id (some s) board)
step (deletes job_id) board = (none, update job_id none board)
step (reads job_id) board = (board job_id, board)

unfoldable pub steps : List Op → Board → List (Option Status) × Board
unfolding step
steps [] board = ([], board)
steps (op ∷ ops) board =
    let (seen, next) = step op board in let (rest, last) = steps ops next in (seen ∷ rest, last)

-- No other task writes, and no call of the server fails.
pub record IsQuiet (env : Env) : Type 0 where
  pub still : (n : ℕ) (vs : List Variable) → env.others n vs ≡ vs
  pub up : (n : ℕ) → env.api n ≡ none

append-cancel : (s a b : Text) → s ++ a ≡ s ++ b → a ≡ b
append-cancel [] a b h = h
append-cancel (c ∷ s) a b h = append-cancel s a b (ground arith)

-- Two jobs of one HPC have two variables.
status_var_name-differ :
    (hpc : Text) (a b : SlurmJobId) → a ≢ b → status_var_name hpc a ≢ status_var_name hpc b
unfolding status_var_name
status_var_name-differ hpc a b differ h = differ (
    append-cancel (b'_' ∷ []) a b
      (append-cancel hpc (b'_' ∷ a) (b'_' ∷ b) (append-cancel (codes "sbatch_") _ _ h)))

get_var-unset_var : (name : Text) (vs : List Variable) → get_var name (unset_var name vs) ≡ none
unfolding get_var unset_var
get_var-unset_var name [] = refl
get_var-unset_var name (u ∷ vs) = elim (Bool-cases (same name u.name)) [
  | inl h ↦ simp (h, get_var-unset_var name vs)
  | inr h ↦ simp (h, get_var-unset_var name vs)
]

get_var-unset_var_other :
    (name removed : Text) (vs : List Variable)
    → name ≢ removed
    → get_var name (unset_var removed vs) ≡ get_var name vs
unfolding get_var unset_var
get_var-unset_var_other name removed [] differ = refl
get_var-unset_var_other name removed (u ∷ vs) differ = elim (Bool-cases (same removed u.name)) [
  | inl h ↦
      let e = (same_iff removed u.name).0 h in
      let d = ap (same name) (sym e) ∙ same-differ name removed differ in
      simp (h, d, get_var-unset_var_other name removed vs differ)
  | inr h ↦
      let rest = get_var-unset_var_other name removed vs differ in
      elim (Bool-cases (same name u.name)) [ inl q ↦ simp (h, q) | inr q ↦ simp (h, q, rest) ]
]

-- A board that differs at one job, by what its variables say.
board_at :
    (hpc : Text) (job_id : SlurmJobId) (s : Option Status) (before after : List Variable)
    → board_of hpc after job_id ≡ s
    → ((name : Text) → name ≢ status_var_name hpc job_id → get_var name after ≡ get_var name before)
    → board_of hpc after ≡ update job_id s (board_of hpc before)
unfolding board_of update
board_at hpc job_id s before after here elsewhere = fun_ext (λ other.
    elim (Bool-cases (same job_id other)) [
      | inl y ↦ rw y (ap (board_of hpc after) (sym ((same_iff job_id other).0 y)) ∙ here)
      | inr z ↦
          let differ : other ≢ job_id = λ e. cc (rw e at z, same_refl job_id) in
          rw z (
            ap (λ v. status_in (validate_status v))
              (elsewhere (status_var_name hpc other)
                (status_var_name-differ hpc other job_id differ)))
    ])

module _ (env : Env) (hpc : Text) where
  -- An operation of the program.
  unfoldable pub do_op : Op → Exec World (Option Status)
  do_op (sets job_id s) = do set_status env hpc job_id s; pure none
  do_op (deletes job_id) = do delete_status env hpc job_id; pure none
  do_op (reads job_id) = read_status env hpc job_id

  unfoldable pub do_ops : List Op → Exec World (List (Option Status))
  do_ops [] = pure []
  do_ops (op ∷ ops) = do seen ← do_op op; rest ← do_ops ops; pure (seen ∷ rest)

  -- An end that is the end of the specification, from this board.
  pub data Refines {A : Type 0} (spec : A × Board) : Outcome A × World → Type 0 where
    refines :
        (a : A) (w : World)
        → a ≡ spec.0
        → board_of hpc w.vars ≡ spec.1
        → Refines spec (returns a, w)

  module _ (quiet : IsQuiet env) where
    pub set_status-Refines :
        (job_id : SlurmJobId) (s : Status) (w : World)
        → Refines (step (sets job_id s) (board_of hpc w.vars)) (do_op (sets job_id s) w)
    unfolding do_op step board_of
    set_status-Refines job_id s w =
        go (set_status env hpc job_id s w) (set_status-SetStatus env hpc job_id s w)
      where
        go :
            (o : Outcome (Unit {0}) × World)
            → SetStatus env hpc job_id s w o
            → Refines (step (sets job_id s) (board_of hpc w.vars)) (and_then o (λ _. pure none))
        go _ (stores u v run same_vars stamped is) =
            let same_before : env.others u.events u.vars ≡ w.vars =
              quiet.still u.events u.vars ∙ same_vars ∙ quiet.still w.events w.vars in
            refines none v refl (
              board_at hpc job_id (some s) w.vars v.vars (ap status_in is.stored)
                (λ name d. is.others_kept name d ∙ ap (get_var name) same_before))
        go _ (fails e n v h) = absurd (ground (arith, quiet.up n))

    pub delete_status-Refines :
        (job_id : SlurmJobId) (w : World)
        → Refines (step (deletes job_id) (board_of hpc w.vars)) (do_op (deletes job_id) w)
    unfolding do_op step delete_status api_write board_of validate_status
    delete_status-Refines job_id w =
        rw (delete_status, api_write, quiet.up w.events, quiet.still w.events w.vars)
          (refines none _ refl (
            board_at hpc job_id none w.vars _
              (ap (λ v. status_in (validate_status v))
                (get_var-unset_var (status_var_name hpc job_id) w.vars))
              (λ name d. get_var-unset_var_other name (status_var_name hpc job_id) w.vars d)))

    pub read_status-Refines :
        (job_id : SlurmJobId) (w : World)
        → Refines (step (reads job_id) (board_of hpc w.vars)) (do_op (reads job_id) w)
    unfolding do_op step read_status read_status_payload api_read board_of
    read_status-Refines job_id w =
        rw
          (
            read_status,
            read_status_payload,
            api_read,
            quiet.up w.events,
            quiet.still w.events w.vars,
          )
          (refines _ _ (read (payload_in hpc job_id w.vars)) refl)
      where
        read :
            (p : Option JobStatus) → (elim p [ none ↦ none | some q ↦ some q.status ]) ≡ status_in p
        read none = refl
        read (some q) = refl

    do_op-Refines : (op : Op) (w : World) → Refines (step op (board_of hpc w.vars)) (do_op op w)
    do_op-Refines (sets job_id s) w = set_status-Refines job_id s w
    do_op-Refines (deletes job_id) w = delete_status-Refines job_id w
    do_op-Refines (reads job_id) w = read_status-Refines job_id w

    -- While no other task writes and the server answers, any sequence of `_set_status`,
    -- `_delete_status` and `_read_status` reads what a finite map from jobs to statuses would give, and
    -- leaves the variables of the HPC as that map; the flow runs stored with them do not show.
    pub do_ops-Refines :
        (ops : List Op) (w : World) → Refines (steps ops (board_of hpc w.vars)) (do_ops ops w)
    unfolding do_ops steps
    do_ops-Refines [] w = refines [] w refl refl
    do_ops-Refines (op ∷ ops) w = go (do_op op w) (do_op-Refines op w) (do_ops-Refines ops)
      where
        next : Board
        next = (step op (board_of hpc w.vars)).1

        ends :
            (seen : Option Status) (o : Outcome (List (Option Status)) × World)
            → seen ≡ (step op (board_of hpc w.vars)).0
            → Refines (steps ops next) o
            → Refines
                (steps (op ∷ ops) (board_of hpc w.vars))
                (and_then o (λ rest. pure (seen ∷ rest)))
        ends seen _ e (refines rest v q h) = refines (seen ∷ rest) v (ground (arith)) h

        go :
            (o : Outcome (Option Status) × World)
            → Refines (step op (board_of hpc w.vars)) o
            → ((v : World) → Refines (steps ops (board_of hpc v.vars)) (do_ops ops v))
            → Refines
                (steps (op ∷ ops) (board_of hpc w.vars))
                (and_then o (λ seen. do_ops ops >>= λ rest. pure (seen ∷ rest)))
        go _ (refines seen v e h) more =
            ends seen (do_ops ops v) e
              (subst (λ b. Refines (steps ops b) (do_ops ops v)) h (more v))
