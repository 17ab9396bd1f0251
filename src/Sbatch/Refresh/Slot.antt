-- ===== src/Sbatch/Refresh/Slot.antt =====
-- The lease under the slot of `_try_update_status`, while no other task writes and the server answers.
use hpc_relay.Base.{
  ℕ, ◌+◌, ◌≡◌, refl, sym, ap, ◌∙◌, inl, inr, Bool, true, false, any, Bool-cases, [], if◌then◌else◌,
}
use hpc_relay.Exec.{Outcome, returns, pure, ◌>>◌, and_then, handle, catch, raise}
use hpc_relay.Sbatch.Refresh.{remember, ensure_concurrency_limit, with_slot, take_lease}
use hpc_relay.Sbatch.Refresh.Lease.{lease_in, lease_to}
use hpc_relay.Sbatch.Variables.{
  lease_duration, is_expired, lease_expired, write_lease, lease_var_name, set_var,
}
use hpc_relay.Sbatch.Variables.Board.{IsQuiet}
use hpc_relay.Sbatch.World.{Variable, Env, World, api_read, api_write, now_utc, sleep}
use hpc_relay.Text.{Text, same}

-- The variable that a lease taken at the time `now` leaves.
abbrev pub lease_variable : Text → ℕ → Variable
lease_variable hpc now = record {
  name = lease_var_name hpc;
  value = lease_to hpc (now + lease_duration);
  tags = [];
}

-- An end with the variables and the time slept as they were.
pub data Stays {A : Type 0} (w : World) : Outcome A × World → Type 0 where
  stays : (a : A) (v : World) → v.vars ≡ w.vars → v.slept ≡ w.slept → Stays w (returns a, v)

-- What a read of the lease sees at the n-th event.
abbrev pub seen : Env → Text → World → ℕ → Bool
seen env hpc w n = is_expired (lease_in hpc w.vars) (env.clock n + w.slept)

pub data Saw (env : Env) (hpc : Text) (w : World) : Outcome Bool × World → Type 0 where
  saw :
      (n : ℕ) (v : World)
      → v.vars ≡ w.vars
      → v.slept ≡ w.slept
      → Saw env hpc w (returns (seen env hpc w n), v)

-- An end of the critical section.
pub data Taken (env : Env) (hpc : Text) (w : World) : Outcome Bool × World → Type 0 where
  renewed :
      (n now : ℕ) (v : World)
      → seen env hpc w n ≡ true
      → v.vars ≡ set_var (lease_variable hpc now) w.vars
      → Taken env hpc w (returns true, v)
  kept :
      (n : ℕ) (v : World)
      → seen env hpc w n ≡ false
      → v.vars ≡ w.vars
      → Taken env hpc w (returns false, v)

data Wrote (hpc : Text) (w : World) : Outcome (Unit {0}) × World → Type 0 where
  wrote :
      (now : ℕ) (v : World)
      → v.vars ≡ set_var (lease_variable hpc now) w.vars
      → Wrote hpc w (returns tt, v)

module _ (env : Env) (hpc : Text) (quiet : IsQuiet env) where
  -- A read of the lease and the clock, and a call that changes no variable.
  pub lease_expired-Saw : (w : World) → Saw env hpc w (lease_expired env hpc w)
  unfolding lease_expired api_read now_utc
  lease_expired-Saw w =
      rw (lease_expired, api_read, quiet.up w.events, quiet.still w.events w.vars)
        (saw (w.events + 1) _ (quiet.still (w.events + 1) w.vars) refl)

  api_write-Stays : (w : World) → Stays w (api_write env (λ vs. vs) w)
  unfolding api_write
  api_write-Stays w =
      rw (api_write, quiet.up w.events) (stays tt _ (quiet.still w.events w.vars) refl)

  write_lease-Wrote : (w : World) → Wrote hpc w (write_lease env hpc w)
  unfolding write_lease api_write now_utc
  write_lease-Wrote w =
      rw
        (
          write_lease,
          api_write,
          now_utc,
          quiet.up (w.events + 1),
          quiet.still w.events w.vars,
          quiet.still (w.events + 1) w.vars,
        )
        (wrote (env.clock w.events + w.slept) _ refl)

  pub ensure_concurrency_limit-Stays :
      (name : Text) (w : World) → Stays w (ensure_concurrency_limit env name w)
  unfolding ensure_concurrency_limit remember api_write
  ensure_concurrency_limit-Stays name w = elim (Bool-cases (any (same name) w.ensured)) [
    | inl h ↦ rw h (stays tt w refl refl)
    | inr h ↦ rw (h, api_write, quiet.up w.events) (stays tt _ (quiet.still w.events w.vars) refl)
  ]

  take_lease-Taken : (w : World) → Taken env hpc w (take_lease env hpc w)
  unfolding take_lease
  take_lease-Taken w = go (lease_expired env hpc w) (lease_expired-Saw w)
    where
      written :
          (n : ℕ) (v : World) (o : Outcome (Unit {0}) × World)
          → v.vars ≡ w.vars
          → seen env hpc w n ≡ true
          → Wrote hpc v o
          → Taken env hpc w (and_then o (λ _. pure true))
      written n v _ e h (wrote now u k) =
          renewed n now u h (k ∙ ap (set_var (lease_variable hpc now)) e)

      go :
          (o : Outcome Bool × World)
          → Saw env hpc w o
          → Taken env hpc w (
              and_then o
                (λ expired. if expired then write_lease env hpc >> pure true else pure false))
      go _ (saw n v e _) = elim (Bool-cases (seen env hpc w n)) [
        | inl h ↦ rw h (written n v (write_lease env hpc v) e h (write_lease-Wrote v))
        | inr h ↦ rw h (kept n v h e)
      ]

  pub seen_same :
      (w u : World)
      → u.vars ≡ w.vars
      → u.slept ≡ w.slept
      → (n : ℕ) → seen env hpc w n ≡ seen env hpc u n
  seen_same w u e s n =
      ap (λ vs. is_expired (lease_in hpc vs) (env.clock n + w.slept)) (sym e)
      ∙ ap (λ t. is_expired (lease_in hpc u.vars) (env.clock n + t)) (sym s)

  pub with_slot-Taken : (w : World) → Taken env hpc w (with_slot env (take_lease env hpc) w)
  unfolding with_slot sleep
  with_slot-Taken w = entered (api_write env (λ vs. vs) w) (api_write-Stays w)
    where
      left :
          (u : World) (o : Outcome Bool × World)
          → u.vars ≡ w.vars
          → u.slept ≡ w.slept
          → Taken env hpc u o
          → Taken env hpc w (handle o (λ a. sleep env 0 >> pure a) (λ e. sleep env 0 >> raise e))
      left u _ e s (renewed n now v h k) =
          renewed n now _ (seen_same w u e s n ∙ h)
            (quiet.still v.events v.vars ∙ k ∙ ap (set_var (lease_variable hpc now)) e)
      left u _ e s (kept n v h k) =
          kept n _ (seen_same w u e s n ∙ h) (quiet.still v.events v.vars ∙ k ∙ e)

      entered :
          (o : Outcome (Unit {0}) × World)
          → Stays w o
          → Taken env hpc w (
              and_then o (λ _.
                catch
                  (take_lease env hpc)
                  (λ a. sleep env 0 >> pure a)
                  (λ e. sleep env 0 >> raise e)))
      entered _ (stays a v e s) = left v (take_lease env hpc v) e s (take_lease-Taken v)
