-- ===== src/Sbatch/Refresh/History.antt =====
-- The lease among all tasks: their critical sections, one after the other, with anything else between
-- them that leaves the lease.
use hpc_relay.Base.{
  ℕ, ◌+◌, ◌≤◌, ◌≡◌, sym, ap, ◌∙◌, Bool, true, List, [], ◌∷◌, Option, none, some, arith,
}
use hpc_relay.Exec.{Outcome, returns}
use hpc_relay.Sbatch.Refresh.{take_lease}
use hpc_relay.Sbatch.Refresh.Lease.{
  lease_in, lease_to, HasSlot, TakeEnd, took, held, failed, take_lease-TakeEnd,
}
use hpc_relay.Sbatch.Variables.{lease_duration, is_expired}
use hpc_relay.Sbatch.Wait.Outage.{time, GoesForward}
use hpc_relay.Sbatch.World.{at, unreadable, Value, monitoring_lock, Variable, Env, World}
use hpc_relay.Text.{Text}

-- The end of a lease, where it can be read.
unfoldable pub ends_at : Option Value → Option ℕ
ends_at (some (monitoring_lock l)) = elim l.lease_expires_at [ unreadable t ↦ none | at t ↦ some t ]
ends_at _ = none

-- The ends of the leases that were taken, the newest first: a section that answered `true` adds one.
unfoldable pub granted : Outcome Bool → Option ℕ → List ℕ → List ℕ
granted (returns true) (some t) log = t ∷ log
granted _ _ log = log

-- The variables, the time and the leases taken, after some steps.
pub data History (hpc : Text) : List Variable → ℕ → List ℕ → Type 0 where
  start : (vs : List Variable) (t : ℕ) → History hpc vs t []
  meanwhile :
      (vs us : List Variable) (t u : ℕ) (log : List ℕ)
      → History hpc vs t log
      → lease_in hpc us ≡ lease_in hpc vs
      → t ≤ u
      → History hpc us u log
  section_of :
      (env : Env) (w : World) (log : List ℕ) (t : ℕ)
      → History hpc w.vars t log
      → GoesForward env.clock
      → HasSlot env hpc
      → t ≤ time env w
      → History hpc (take_lease env hpc w).1.vars (time env (take_lease env hpc w).1) (
          granted
            (take_lease env hpc w).0
            (ends_at (lease_in hpc (take_lease env hpc w).1.vars))
            log)

-- Each lease ends at least 20 seconds after the one before it.
pub Spaced : List ℕ → Type 0
Spaced [] = Unit
Spaced (t ∷ []) = Unit
Spaced (t ∷ u ∷ log) = (u + lease_duration ≤ t) × Spaced (u ∷ log)

-- The newest lease is the one that is stored.
IsNewest : Text → List Variable → List ℕ → Type 0
IsNewest hpc vs [] = Unit
IsNewest hpc vs (t ∷ log) = lease_in hpc vs ≡ some (lease_to hpc t)

IsNewest-kept :
    (hpc : Text) (vs us : List Variable) (log : List ℕ)
    → lease_in hpc us ≡ lease_in hpc vs
    → IsNewest hpc vs log
    → IsNewest hpc us log
unfolding IsNewest
IsNewest-kept hpc vs us [] e n = tt
IsNewest-kept hpc vs us (t ∷ log) e n = e ∙ n

Spaced-took :
    (hpc : Text) (vs : List Variable) (seen now : ℕ) (log : List ℕ)
    → IsNewest hpc vs log
    → Spaced log
    → is_expired (lease_in hpc vs) seen ≡ true
    → seen ≤ now
    → Spaced ((now + lease_duration) ∷ log)
unfolding IsNewest Spaced is_expired
Spaced-took hpc vs seen now [] n s expired before = tt
Spaced-took hpc vs seen now (t ∷ log) n s expired before =
    let early = ap (λ l. is_expired l seen) (sym n) ∙ expired in (ground arith, s)

-- What a section leaves of the order of the leases.
section-Spaced :
    (env : Env) (hpc : Text) (w : World) (log : List ℕ) (o : Outcome Bool × World)
    → TakeEnd env hpc w o
    → IsNewest hpc w.vars log
    → Spaced log
    → IsNewest hpc o.1.vars (granted o.0 (ends_at (lease_in hpc o.1.vars)) log)
      × Spaced (granted o.0 (ends_at (lease_in hpc o.1.vars)) log)
unfolding granted ends_at IsNewest
section-Spaced env hpc w log _ (took seen now v later expired before after stored) n s =
    rw stored (stored, Spaced-took hpc w.vars seen now log n s expired before)
section-Spaced env hpc w log _ (held seen v later before expired kept) n s =
    (IsNewest-kept hpc w.vars v.vars log kept n, s)
section-Spaced env hpc w log _ (failed e v later kept) n s =
    (IsNewest-kept hpc w.vars v.vars log kept n, s)

history-Spaced :
    (hpc : Text) (vs : List Variable) (t : ℕ) (log : List ℕ)
    → History hpc vs t log
    → IsNewest hpc vs log × Spaced log
unfolding IsNewest Spaced
history-Spaced hpc vs t log (start _ _) = (tt, tt)
history-Spaced hpc _ _ log (meanwhile vs us t u _ before kept later) =
    let (n, s) = history-Spaced hpc vs t log before in (IsNewest-kept hpc vs us log kept n, s)
history-Spaced hpc _ _ _ (section_of env w log t before forward alone later) =
    let (n, s) = history-Spaced hpc w.vars t log before in
    section-Spaced env hpc w log (take_lease env hpc w) (take_lease-TakeEnd env hpc forward alone w)
      n s

-- However many tasks poll and in whatever order they come to the slot, the leases that they take end
-- at least 20 seconds apart: provided that the
-- clock goes forward, and that only the holder of the slot writes the lease.
pub leases-Spaced :
    (hpc : Text) (vs : List Variable) (t : ℕ) (log : List ℕ) → History hpc vs t log → Spaced log
leases-Spaced hpc vs t log h = (history-Spaced hpc vs t log h).1
