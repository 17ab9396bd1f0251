-- ===== src/Sbatch/Guard/Commands.antt =====
-- The parts of `_flow_cancellation_guard` that issue no command, and the jobs that it chooses.
use hpc_relay.Base.{
  In, at_head, in_tail, ◌≡◌, refl, sym, ap, ◌∙◌, ◌↔◌, inl, inr, true, Bool-cases, List, [], ◌∷◌,
  Option, none, some, arith,
}
use hpc_relay.Runner.Types.{Command}
use hpc_relay.Exec.Keeps.{Keeps, Keeps-then, keeps_rules}
use hpc_relay.Sbatch.Guard.{belongs, own_ids, mark_all}
use hpc_relay.Sbatch.Variables.{set_status, read_status_payload, list_status_payloads}
use hpc_relay.Sbatch.World.{
  Status, cancelling, JobStatus, Variable, Env, World, api_read, api_write,
}
use hpc_relay.Slurm.Types.{SlurmJobId}
use hpc_relay.Text.{Text, same_iff}

-- The commands issued so far.
pub record HasIssued (cmds : List Command) (w : World) : Type 0 where
  pub issued_are : w.issued ≡ cmds

module _ (env : Env) (cmds : List Command) where
  pub api_read-HasIssued :
      {A : Type 0} (f : List Variable → A) → Keeps (HasIssued cmds) (api_read env f)
  unfolding api_read
  api_read-HasIssued f = record { at = λ w h. ground arith }

  pub api_write-HasIssued :
      (f : List Variable → List Variable) → Keeps (HasIssued cmds) (api_write env f)
  unfolding api_write
  api_write-HasIssued f = record { at = λ w h. ground arith }

  ruleset quiet_rules = (keeps_rules, api_read-HasIssued, api_write-HasIssued)

  pub set_status-HasIssued :
      (hpc : Text) (id : SlurmJobId) (status : Status)
      → Keeps (HasIssued cmds) (set_status env hpc id status)
  unfolding set_status read_status_payload
  set_status-HasIssued hpc id status = search quiet_rules

  pub list_status_payloads-HasIssued :
      (hpc : Text) → Keeps (HasIssued cmds) (list_status_payloads env hpc)
  unfolding list_status_payloads
  list_status_payloads-HasIssued hpc = search quiet_rules

  pub mark_all-HasIssued :
      (hpc : Text) (ids : List SlurmJobId) → Keeps (HasIssued cmds) (mark_all env hpc ids)
  unfolding mark_all
  mark_all-HasIssued hpc [] = search quiet_rules
  mark_all-HasIssued hpc (id ∷ ids) =
      Keeps-then _ _ (set_status-HasIssued hpc id cancelling) (mark_all-HasIssued hpc ids)

-- `id` is the id of a payload that carries the flow run.
pub IsOwnOf : Text → List JobStatus → SlurmJobId → Type 0
IsOwnOf run payloads id =
    (p : JobStatus) × (In p payloads × (p.job_id ≡ id) × (p.flow_run_id ≡ some run))

belongs_iff : (run : Text) (owner : Option Text) → (belongs run owner ≡ true) ↔ (owner ≡ some run)
unfolding belongs
belongs_iff run none = ground arith
belongs_iff run (some owner) = ground (arith, same_iff owner run)

pub own_ids_sound :
    (run : Text) (payloads : List JobStatus) (id : SlurmJobId)
    → In id (own_ids run payloads)
    → IsOwnOf run payloads id
unfolding own_ids IsOwnOf
own_ids_sound run [] id i = elim i [ ]
own_ids_sound run (p ∷ ps) id i = elim (Bool-cases (belongs run p.flow_run_id)) [
  | inl h ↦ go h (own_ids_sound run ps id) (rw h at i)
  | inr h ↦ later (own_ids_sound run ps id (rw h at i))
]
  where
    later : IsOwnOf run ps id → IsOwnOf run (p ∷ ps) id
    later (q, (m, e, o)) = (q, (in_tail m, e, o))

    go :
        belongs run p.flow_run_id ≡ true
        → (In id (own_ids run ps) → IsOwnOf run ps id)
        → In id (p.job_id ∷ own_ids run ps)
        → IsOwnOf run (p ∷ ps) id
    go h ih (at_head e) = (p, (at_head refl, sym e, (belongs_iff run p.flow_run_id).0 h))
    go h ih (in_tail m) = later (ih m)

pub own_ids_complete :
    (run : Text) (payloads : List JobStatus) (id : SlurmJobId)
    → IsOwnOf run payloads id
    → In id (own_ids run payloads)
unfolding own_ids IsOwnOf
own_ids_complete run payloads id (q, (m, e, o)) = go payloads m
  where
    go : (ps : List JobStatus) → In q ps → In id (own_ids run ps)
    go [] i = elim i [ ]
    go (p ∷ ps) (at_head h) =
        let b = (belongs_iff run p.flow_run_id).1 (ap (λ r. r.flow_run_id) (sym h) ∙ o) in
        rw b (at_head (sym e ∙ ap (λ r. r.job_id) h))
    go (p ∷ ps) (in_tail h) = elim (Bool-cases (belongs run p.flow_run_id)) [
      | inl b ↦ rw b (in_tail (go ps h))
      | inr b ↦ rw b (go ps h)
    ]
