-- ===== src/Sbatch/Variables/Stored.antt =====
-- What `_set_status` stores.
use hpc_relay.Base.{
  ℕ, ◌+◌, ◌≡◌, refl, ap, ◌≢◌, ◌⊎◌, inl, inr, Option-cases, List, [], ◌∷◌, Option, none, some,
}
use hpc_relay.Exec.{Outcome, returns, raises}
use hpc_relay.Sbatch.Variables.{
  get_var, set_var, validate_status, owner, truthy, or_else, status_var_name, status_variable,
  read_status_payload, set_status,
}
use hpc_relay.Result.{Exc}
use hpc_relay.Sbatch.Variables.Lookup.{get_var-set_var, get_var-set_var_other}
use hpc_relay.Sbatch.World.{Status, JobStatus, Variable, Env, World, api_read, api_write, tick}
use hpc_relay.Slurm.Types.{SlurmJobId}
use hpc_relay.Text.{Text}

-- What a job's variable says in a list of variables.
abbrev pub payload_in : Text → SlurmJobId → List Variable → Option JobStatus
payload_in hpc job_id vs = validate_status (get_var (status_var_name hpc job_id) vs)

-- The variables `after` are those of `before` with one payload stored, stamped with `flow_run_id`.
pub record IsStored (hpc : Text) (job_id : SlurmJobId) (status : Status) (flow_run_id : Option Text)
    (before after : List Variable) : Type 0 where
  pub stored :
      payload_in hpc job_id after
      ≡ some (record { job_id = job_id; hpc = hpc; status = status; flow_run_id = flow_run_id })
  pub others_kept :
      (name : Text) → name ≢ status_var_name hpc job_id → get_var name after ≡ get_var name before

set_var-IsStored :
    (hpc : Text) (job_id : SlurmJobId) (status : Status) (flow_run_id flow_name : Option Text)
    (vs : List Variable)
    → IsStored hpc job_id status flow_run_id vs
        (set_var (status_variable hpc job_id status flow_run_id flow_name) vs)
unfolding validate_status status_variable
set_var-IsStored hpc job_id status flow_run_id flow_name vs =
    let v = status_variable hpc job_id status flow_run_id flow_name in
    record {
      stored = ap validate_status (get_var-set_var v vs);
      others_kept = λ name differ. get_var-set_var_other name v vs differ;
    }

-- Nothing, or an empty text.
abbrev pub IsBlank : Option Text → Type 0
IsBlank t = (t ≡ none) ⊎ (t ≡ some [])

-- The payload that was found, if any, names no flow run.
abbrev pub NamesNone : Option JobStatus → Type 0
NamesNone existing = (p : JobStatus) → existing ≡ some p → IsBlank p.flow_run_id

-- The flow run that a payload is stamped with: the one that the existing payload names; the current one
-- only where that names none; or none.
pub data Stamped (existing : Option JobStatus) (current : Option Text) : Option Text → Type 0 where
  kept :
      (p : JobStatus) (run : Text)
      → existing ≡ some p
      → p.flow_run_id ≡ some run
      → run ≢ []
      → Stamped existing current (some run)
  fresh :
      (run : Text)
      → NamesNone existing
      → current ≡ some run
      → run ≢ []
      → Stamped existing current (some run)
  unstamped : NamesNone existing → IsBlank current → Stamped existing current none

truthy-fresh :
    (existing : Option JobStatus) (current : Option Text)
    → NamesNone existing
    → Stamped existing current (truthy current)
unfolding truthy
truthy-fresh existing none n = unstamped n (inl refl)
truthy-fresh existing (some []) n = unstamped n (inr refl)
truthy-fresh existing (some (c ∷ s)) n = fresh (c ∷ s) n refl (λ q. cc)

owner-Stamped :
    (existing : Option JobStatus) (current : Option Text)
    → Stamped existing current (owner existing current)
unfolding owner truthy or_else
owner-Stamped none current = truthy-fresh none current (λ p q. cc)
owner-Stamped (some p) current = go p.flow_run_id refl
  where
    blank : IsBlank p.flow_run_id → NamesNone (some p)
    blank b q e = elim b [ inl h ↦ inl (cc (e, h)) | inr h ↦ inr (cc (e, h)) ]

    go :
        (t : Option Text)
        → p.flow_run_id ≡ t
        → Stamped (some p) current (or_else (truthy t) (truthy current))
    go none h = truthy-fresh (some p) current (blank (inl h))
    go (some []) h = truthy-fresh (some p) current (blank (inr h))
    go (some (c ∷ s)) h = kept p (c ∷ s) refl h (λ q. cc)

-- A run of `_set_status` from the world `w`.
pub data SetStatus (env : Env) (hpc : Text) (job_id : SlurmJobId) (status : Status) (w : World)
    : Outcome (Unit {0}) × World → Type 0 where
  stores :
      (u v : World) (run : Option Text)
      → u.vars ≡ env.others w.events w.vars
      → Stamped (payload_in hpc job_id u.vars) env.flow_run_id run
      → IsStored hpc job_id status run (env.others u.events u.vars) v.vars
      → SetStatus env hpc job_id status w (returns tt, v)
  fails :
      (e : Exc) (n : ℕ) (v : World)
      → env.api n ≡ some e
      → SetStatus env hpc job_id status w (raises e, v)

-- `_set_status` stores the status under the job's name and leaves every other variable as the other
-- tasks have made it. It stamps the payload with the flow run of the one that it has read there, and
-- with the current flow run only where that names none. It raises only what a call of the API raises.
pub set_status-SetStatus :
    (env : Env) (hpc : Text) (job_id : SlurmJobId) (status : Status) (w : World)
    → SetStatus env hpc job_id status w (set_status env hpc job_id status w)
unfolding set_status read_status_payload api_read api_write
set_status-SetStatus env hpc job_id status w = elim (Option-cases (env.api w.events)) [
  | inr (e, h) ↦ rw (h, set_status, read_status_payload, api_read) (fails e w.events _ h)
  | inl h ↦ elim (Option-cases (env.api (w.events + 1))) [
    | inr (e, q) ↦
        rw (h, q, set_status, read_status_payload, api_read, api_write) (fails e (w.events + 1) _ q)
    | inl q ↦
        rw (h, q, set_status, read_status_payload, api_read, api_write)
          (stores (tick w (env.others w.events w.vars)) _ _ refl
            (owner-Stamped (payload_in hpc job_id (env.others w.events w.vars)) env.flow_run_id)
            (set_var-IsStored hpc job_id status
              (owner (payload_in hpc job_id (env.others w.events w.vars)) env.flow_run_id)
              env.flow_name _))
  ]
]
