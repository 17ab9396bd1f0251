-- ===== src/Ecaccess/MainEnds.antt =====
-- How `main` of ecmwf_ecaccess_perl.py ends.
use hpc_relay.Base.{
  ℕ, ◌+◌, ◌≤◌, ◌≡◌, refl, inl, inr, Bool, false, List, [], ◌∷◌, none, some, arith, Bool-cases,
}
use hpc_relay.Ecaccess.Client.{
  Call, say, Gateway, State, EcaccessClient, asks, release_token, get_gateway_name,
}
use hpc_relay.Ecaccess.Effects.{release_token-released}
use hpc_relay.Ecaccess.JobSession.{submit_job-Does, get_job_output-Does}
use hpc_relay.Ecaccess.Jobs.{finished}
use hpc_relay.Ecaccess.Main.{
  Subcommand, gateway, ops, queues, jobs, submit, delete, restart, get, info_all, dispatch,
  exit_code, guarded, main,
}
use hpc_relay.Ecaccess.Release.{released-lem}
use hpc_relay.Ecaccess.Session.{
  list_jobs-Does, list_queues-Does, list_operations-Does, delete_job-Does, restart_job-Does,
}
use hpc_relay.Ecaccess.Token.{
  is_login, logins, holds, Held, Within, Start, Held-Start, Start-Within, Start-Stable,
  Within-Stable, asks-Does, bind-Does, then-Does, pure-Does, call-Does,
}
use hpc_relay.Exec.Triple.{Ends, fine, broke, Does, Does-weaken}
use hpc_relay.Exec.{Outcome, returns, raises, Exec, pure, ◌>>=◌, ◌>>◌, handle, and_then}
use hpc_relay.Result.{Exc, runtime_error, file_not_found, http_error}
use hpc_relay.Text.{Text, same}

module _ (g : Gateway) (c : EcaccessClient) {n : ℕ} where
  -- An operation that logs in, followed by what needs no token.
  and_print :
      {A B : Type 0} (m : Exec State A) (f : A → Exec State B)
      → Does (Start n) (Held n) (Within n) m
      → ((a : A) → Does (Start n) (Start n) (Within n) (f a))
      → Does (Start n) (Start n) (Within n) (m >>= f)
  and_print m f d df =
      bind-Does Start-Stable m f (Does-weaken m (λ s h. h) Held-Start (λ s h. h) d) df

  asks_free :
      {A : Type 0} (answer : List Call → Outcome A) (k : Call)
      → is_login k ≡ false
      → Does (Start n) (Start n) (Within n) (asks answer k)
  asks_free = asks-Does Start-Stable

  info_all-Does : (lines : List Text) → Does (Start n) (Start n) (Within n) (info_all g c lines)
  unfolding info_all is_login
  info_all-Does [] = pure-Does Start-Stable tt
  info_all-Does (line ∷ lines) =
      then-Does Start-Stable (asks g.flag (say line) >> pure tt) (info_all g c lines)
        (then-Does Start-Stable (asks g.flag (say line)) (pure tt)
          (asks_free g.flag (say line) refl) (pure-Does Start-Stable tt))
        (info_all-Does lines)

  gateway-Does : Does (Start n) (Start n) (Within n) (get_gateway_name g c)
  unfolding get_gateway_name same
  gateway-Does = search (bind-Does Start-Stable, call-Does Start-Stable, pure-Does Start-Stable)

  dispatch-Does :
      (command : Subcommand) → Does (Start n) (Start n) (Within n) (dispatch g c command)
  unfolding dispatch is_login
  dispatch-Does gateway = search (
    bind-Does Start-Stable,
    gateway-Does,
    then-Does Start-Stable,
    asks_free,
    pure-Does Start-Stable,
  )
  dispatch-Does ops = search (and_print, list_operations-Does, info_all-Does)
  dispatch-Does (queues detail) = search (and_print, list_queues-Does, info_all-Does)
  dispatch-Does (jobs job_id) = search (and_print, list_jobs-Does, info_all-Does)
  dispatch-Does (submit args) =
      search (and_print, submit_job-Does, then-Does Start-Stable, asks_free, pure-Does Start-Stable)
  dispatch-Does (delete job_id) =
      search (and_print, delete_job-Does, then-Does Start-Stable, asks_free, pure-Does Start-Stable)
  dispatch-Does (restart job_id) =
      search
        (and_print, restart_job-Does, then-Does Start-Stable, asks_free, pure-Does Start-Stable)
  dispatch-Does (get job_id error input none) =
      search
        (and_print, get_job_output-Does, then-Does Start-Stable, asks_free, pure-Does Start-Stable)
  dispatch-Does (get job_id error input (some output)) =
      search
        (and_print, get_job_output-Does, then-Does Start-Stable, asks_free, pure-Does Start-Stable)

-- How `main` ends: with the exit code 0 or 1, or by an exception. In each
-- case no token is left, and the certificate was exchanged once at most.
pub data MainEnd (n : ℕ) : Outcome ℕ × State → Type 0 where
  exits :
      (code : ℕ) (s : State)
      → code ≤ 1
      → holds s.token ≡ false
      → logins s.log ≤ n + 1
      → MainEnd n (returns code, s)
  propagates :
      (e : Exc) (s : State) → holds s.token ≡ false → logins s.log ≤ n + 1 → MainEnd n (raises e, s)

-- An end of the `try` and `except` clauses.
data GuardEnd (n : ℕ) : Outcome ℕ × State → Type 0 where
  coded : (code : ℕ) (s : State) → code ≤ 1 → Within n s → GuardEnd n (returns code, s)
  unreported : (e : Exc) (s : State) → Within n s → GuardEnd n (raises e, s)

module _ (g : Gateway) (c : EcaccessClient) (is_connect_error : ℕ → Bool) {n : ℕ} where
  reported-GuardEnd :
      (line : Text) (s : State) → Within n s → GuardEnd n ((asks g.flag (say line) >> pure 1) s)
  unfolding is_login
  reported-GuardEnd line s w =
      go (asks g.flag (say line) s) ((asks-Does Within-Stable g.flag (say line) refl).at s w)
    where
      go :
          (o : Outcome Bool × State)
          → Ends (Within n) (Within n) o
          → GuardEnd n (and_then o (λ _. pure 1))
      go _ (fine a t v) = coded 1 t (omega arith) v
      go _ (broke e t v) = unreported e t v

  exit_code-GuardEnd :
      (e : Exc) (s : State) → Within n s → GuardEnd n (exit_code g c is_connect_error e s)
  unfolding exit_code
  exit_code-GuardEnd (file_not_found name) s w = reported-GuardEnd _ s w
  exit_code-GuardEnd (runtime_error why) s w = reported-GuardEnd _ s w
  exit_code-GuardEnd (http_error k) s w = elim (Bool-cases (is_connect_error k)) [
    | inl y ↦ rw y (reported-GuardEnd _ s w)
    | inr z ↦ rw z (unreported _ s w)
  ]
  exit_code-GuardEnd e s w = unreported e s w

  guarded-GuardEnd :
      (command : Subcommand) (s : State)
      → Start n s
      → GuardEnd n (guarded g c is_connect_error command s)
  unfolding guarded
  guarded-GuardEnd command s h = go (dispatch g c command s) ((dispatch-Does g c command).at s h)
    where
      go :
          (o : Outcome (Unit {0}) × State)
          → Ends (Start n) (Within n) o
          → GuardEnd n (handle o (λ _. pure 0) (exit_code g c is_connect_error))
      go _ (fine a t v) = coded 0 t (omega arith) (Start-Within t v)
      go _ (broke e t v) = exit_code-GuardEnd e t v

  pub main-MainEnd :
      (command : Subcommand) (s : State)
      → Start n s
      → MainEnd n (main g c is_connect_error command s)
  unfolding main
  main-MainEnd command s h =
      go (guarded g c is_connect_error command s) (guarded-GuardEnd command s h)
    where
      go : (o : Outcome ℕ × State) → GuardEnd n o → MainEnd n (finished o.0 (release_token g c o.1))
      go _ (coded code t small w) =
          let (empty, same_logins) = released-lem g c t in
          rw (release_token-released g c t) (exits code _ small empty (rw same_logins w.once))
      go _ (unreported e t w) =
          let (empty, same_logins) = released-lem g c t in
          rw (release_token-released g c t) (propagates e _ empty (rw same_logins w.once))
