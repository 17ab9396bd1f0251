-- ===== src/Sbatch/Refresh/Lease.antt =====
-- The monitoring lease: what one critical section of `_try_update_status` does to it.
use hpc_relay.Base.{
  ℕ, ◌+◌, ◌≤◌, ◌≡◌, sym, ap, ◌∙◌, inl, inr, Bool, true, false, Bool-cases, Option-cases, List,
  Option, some, arith,
}
use hpc_relay.Exec.{Outcome, returns, raises}
use hpc_relay.Result.{Exc}
use hpc_relay.Sbatch.Refresh.{take_lease}
use hpc_relay.Sbatch.Variables.{
  lease_duration, lease_var_name, get_var, is_expired, lease_expired, write_lease,
}
use hpc_relay.Sbatch.Variables.Lookup.{get_var-set_var}
use hpc_relay.Sbatch.Wait.Outage.{time, GoesForward}
use hpc_relay.Sbatch.World.{
  at, Value, monitoring_lock, Variable, Env, World, api_read, api_write, now_utc,
}
use hpc_relay.Text.{Text}

abbrev pub lease_in : Text → List Variable → Option Value
lease_in hpc vs = get_var (lease_var_name hpc) vs

abbrev pub lease_to : Text → ℕ → Value
lease_to hpc t = monitoring_lock (record { hpc = hpc; lease_expires_at = at t })

-- While this task holds the slot, no other writes the lease.
abbrev pub HasSlot : Env → Text → Type 0
HasSlot env hpc = (n : ℕ) (vs : List Variable) → lease_in hpc (env.others n vs) ≡ lease_in hpc vs

-- An end of the critical section.
pub data TakeEnd (env : Env) (hpc : Text) (w : World) : Outcome Bool × World → Type 0 where
  took :
      (seen now : ℕ) (v : World)
      → time env w ≤ seen
      → is_expired (lease_in hpc w.vars) seen ≡ true
      → seen ≤ now
      → now ≤ time env v
      → lease_in hpc v.vars ≡ some (lease_to hpc (now + lease_duration))
      → TakeEnd env hpc w (returns true, v)
  held :
      (seen : ℕ) (v : World)
      → time env w ≤ seen
      → seen ≤ time env v
      → is_expired (lease_in hpc w.vars) seen ≡ false
      → lease_in hpc v.vars ≡ lease_in hpc w.vars
      → TakeEnd env hpc w (returns false, v)
  failed :
      (e : Exc) (v : World)
      → time env w ≤ time env v
      → lease_in hpc v.vars ≡ lease_in hpc w.vars
      → TakeEnd env hpc w (raises e, v)

module _ (env : Env) (hpc : Text) (forward : GoesForward env.clock) (alone : HasSlot env hpc)
    (w : World) where
  next : (n : ℕ) → env.clock n ≤ env.clock (n + 1)
  next n = forward n (n + 1) (ground arith)

  abbrev vars_1 : List Variable
  vars_1 = env.others w.events w.vars

  abbrev vars_2 : List Variable
  vars_2 = env.others (w.events + 1) vars_1

  abbrev vars_3 : List Variable
  vars_3 = env.others (w.events + 1 + 1) vars_2

  abbrev vars_4 : List Variable
  vars_4 = env.others (w.events + 1 + 1 + 1) vars_3

  seen_lease : lease_in hpc vars_1 ≡ lease_in hpc w.vars
  seen_lease = alone w.events w.vars

  same_lease : lease_in hpc vars_2 ≡ lease_in hpc w.vars
  same_lease = alone (w.events + 1) vars_1 ∙ seen_lease

  kept_lease : lease_in hpc vars_4 ≡ lease_in hpc w.vars
  kept_lease = alone (w.events + 1 + 1 + 1) vars_3 ∙ alone (w.events + 1 + 1) vars_2 ∙ same_lease

  as_seen :
      (b : Bool)
      → is_expired (lease_in hpc vars_1) (env.clock (w.events + 1) + w.slept) ≡ b
      → is_expired (lease_in hpc w.vars) (env.clock (w.events + 1) + w.slept) ≡ b
  as_seen b e = ap (λ l. is_expired l (env.clock (w.events + 1) + w.slept)) (sym seen_lease) ∙ e

  pub take_lease-TakeEnd : TakeEnd env hpc w (take_lease env hpc w)
  unfolding take_lease lease_expired write_lease api_read api_write now_utc
  take_lease-TakeEnd =
      let t_0 = next w.events in
      let t_1 = next (w.events + 1) in
      let t_2 = next (w.events + 1 + 1) in
      let t_3 = next (w.events + 1 + 1 + 1) in
      elim (Option-cases (env.api w.events)) [
        | inr (e, h) ↦
            rw (h, take_lease, lease_expired, api_read)
              (failed e _ (let q = next w.events in ground arith) seen_lease)
        | inl h ↦
            rw (h, take_lease, lease_expired, api_read)
              (elim (Bool-cases
                (is_expired (lease_in hpc vars_1) (env.clock (w.events + 1) + w.slept))) [
                  | inr b ↦
                      rw (b, now_utc)
                        (held (env.clock (w.events + 1) + w.slept) _ (ground arith) (ground arith)
                          (as_seen false b) same_lease)
                  | inl b ↦
                      rw (b, now_utc)
                        (elim (Option-cases (env.api (w.events + 1 + 1 + 1))) [
                          | inr (e, q) ↦
                              rw (q, write_lease, api_write) (failed e _ (ground arith) kept_lease)
                          | inl q ↦
                              rw (q, write_lease, api_write)
                                (took (env.clock (w.events + 1) + w.slept)
                                  (env.clock (w.events + 1 + 1) + w.slept) _ (ground arith)
                                  (as_seen true b) (ground arith) (ground arith)
                                  (get_var-set_var _ vars_4))
                        ])
                ])
      ]
