-- ===== src/Ecaccess/Release.antt =====
-- That whoever uses the client gives the token back: `run` of the runner and `main`.
use hpc_relay.Base.{
  ℕ, zero, suc, ◌+◌, ◌≤◌, ◌≡◌, refl, false, List, [], ◌∷◌, Option, none, some, arith,
}
use hpc_relay.Ecaccess.Client.{
  unlink, post, write_temp, Gateway, State, EcaccessClient, asks, release_token, ctrl_url,
}
use hpc_relay.Ecaccess.Effects.{released, release_token-released}
use hpc_relay.Ecaccess.Envelope.{soap_envelope}
use hpc_relay.Ecaccess.JobSession.{submit_job-Does, get_job_output-Does}
use hpc_relay.Ecaccess.Jobs.{JobRow, finished, list_jobs, submit_job}
use hpc_relay.Ecaccess.Runner.{
  Waiting, cleaned_up, once, reported, look, poll_once, wait_for_terminal, collect, attend,
  plain_args, run_script, run_client,
}
use hpc_relay.Ecaccess.Session.{list_jobs-Does}
use hpc_relay.Ecaccess.Token.{
  is_login, logins, logins-append_one, holds, Held, Within, Start, Held-Within, Held-Start,
  Held-Stable, Within-Stable, Start-Stable, asks-Does, raise-Does, bind-Does, then-Does, if-Does,
  pure-Does,
}
use hpc_relay.Exec.Triple.{Ends, fine, broke, Does, Does-weaken, Does-bind}
use hpc_relay.Exec.{Outcome, returns, raises, Exec, pure}
use hpc_relay.FilePath.{to_path}
use hpc_relay.Result.{Result}
use hpc_relay.Runner.Types.{CommandResult}
use hpc_relay.Text.{Text, codes, same}

module _ (g : Gateway) (c : EcaccessClient) {n : ℕ} where
  from_Held :
      {A : Type 0} (m : Exec State A)
      → Does (Start n) (Held n) (Within n) m
      → Does (Held n) (Held n) (Within n) m
  from_Held m d = Does-weaken m Held-Start (λ s h. h) (λ s h. h) d

  look-Does :
      (job_id : Text) (rows : List JobRow)
      → Does (Held n) (Held n) (Within n) (look g c job_id rows)
  unfolding look is_login
  look-Does job_id [] = raise-Does Held-Stable _
  look-Does job_id (job ∷ rows) =
      search
        (if-Does Held-Stable, then-Does Held-Stable, pure-Does Held-Stable, asks-Does Held-Stable)

  poll_once-Does : (job_id : Text) → Does (Held n) (Held n) (Within n) (poll_once g c job_id)
  unfolding poll_once
  poll_once-Does job_id =
      bind-Does Held-Stable _ _
        (from_Held (list_jobs g c (some job_id)) (list_jobs-Does g c (some job_id)))
        (look-Does job_id)

  wait-Does :
      (rounds : ℕ) (job_id : Text)
      → Does (Held n) (Held n) (Within n) (wait_for_terminal g c rounds job_id)
  unfolding wait_for_terminal
  wait-Does zero job_id = pure-Does Held-Stable none
  wait-Does (suc rounds) job_id =
      bind-Does Held-Stable (poll_once g c job_id) _ (poll_once-Does job_id)
        (go (wait-Does rounds job_id))
    where
      go :
          Does (Held n) (Held n) (Within n) (wait_for_terminal g c rounds job_id)
          → (found : Option Text)
          → Does (Held n) (Held n) (Within n) (elim found [
            | none ↦ wait_for_terminal g c rounds job_id
            | some status ↦ pure (some status)
          ])
      go d none = d
      go d (some status) = pure-Does Held-Stable (some status)

  module _ (decode : Text → Text) where
    collect-Does :
        (job_id status : Text)
        → Does (Held n) (Held n) (Within n) (collect g c decode job_id status)
    unfolding collect
    collect-Does job_id status =
        bind-Does Held-Stable _ _ (from_Held _ (get_job_output-Does g c job_id (codes "output")))
          (λ out.
            bind-Does Held-Stable _ _ (from_Held _ (get_job_output-Does g c job_id (codes "error")))
              (λ err_text. pure-Does Held-Stable _))

    once-Does :
        {A B : Type 0} (f : A → Exec State B) (w : Waiting A)
        → ((a : A) → Does (Held n) (Held n) (Within n) (f a))
        → Does (Held n) (Held n) (Within n) (once f w)
    once-Does f none d = pure-Does Held-Stable none
    once-Does f (some a) d =
        bind-Does Held-Stable (f a) (λ b. pure (some b)) (d a) (λ b. pure-Does Held-Stable (some b))

    attend-Does :
        (rounds : ℕ) (script_path : Text)
        → Does (Start n) (Held n) (Within n) (attend g c decode rounds script_path)
    unfolding attend
    attend-Does rounds script_path =
        Does-bind (submit_job g c (plain_args script_path)) _
          (submit_job-Does g c (plain_args script_path))
          (λ job_id.
            bind-Does Held-Stable _ _ (wait-Does rounds job_id)
              (λ status. once-Does (collect g c decode job_id) status (collect-Does job_id)))

    cleaned_up-Ends :
        {A : Type 0} (k : Exec State (Unit {0})) (o : Outcome (Waiting A) × State)
        → Does (Within n) (Within n) (Within n) k
        → Ends (Held n) (Within n) o
        → Ends (Within n) (Within n) (cleaned_up k o)
    cleaned_up-Ends {A} k _ d (fine none s h) = fine none s (Held-Within s h)
    cleaned_up-Ends {A} k _ d (fine (some a) s h) = go (k s) (d.at s (Held-Within s h))
      where
        go :
            (r : Outcome (Unit {0}) × State)
            → Ends (Within n) (Within n) r
            → Ends {S = State} {A = Waiting A} (Within n) (Within n) (finished (returns (some a)) r)
        go _ (fine u s h) = fine (some a) s h
        go _ (broke e s h) = broke e s h
    cleaned_up-Ends {A} k _ d (broke x s h) = go (k s) (d.at s h)
      where
        go :
            (r : Outcome (Unit {0}) × State)
            → Ends (Within n) (Within n) r
            → Ends {S = State} {A = Waiting A} (Within n) (Within n) (finished (raises x) r)
        go _ (fine u s h) = broke x s h
        go _ (broke e s h) = broke e s h

    run_script-Does :
        (rounds : ℕ) (script : Text)
        → Does (Start n) (Within n) (Within n) (run_script g c decode rounds script)
    unfolding run_script is_login
    run_script-Does rounds script =
        Does-bind (asks g.bytes (write_temp script)) _ (asks-Does Start-Stable g.bytes _ refl)
          (λ script_path. record {
            at = λ s h.
                cleaned_up-Ends _ (attend g c decode rounds script_path s)
                  (then-Does Within-Stable (asks g.flag (unlink (to_path script_path))) _
                    (asks-Does Within-Stable g.flag _ refl) (pure-Does Within-Stable tt))
                  ((attend-Does rounds script_path).at s h);
          })

-- How `run` ends: it is still waiting, or it gives a result and has given its token back; the
-- certificate was exchanged once at most. It never ends in an exception.
pub data RunEnd {A : Type 0} (n : ℕ) : Outcome (Waiting A) × State → Type 0 where
  running : (s : State) → logins s.log ≤ n + 1 → RunEnd n (returns none, s)
  done :
      (a : A) (s : State)
      → logins s.log ≤ n + 1
      → holds s.token ≡ false
      → RunEnd n (returns (some a), s)

pub released-lem :
    (g : Gateway) (c : EcaccessClient) (s : State)
    → (holds (released g c s.token s).token ≡ false)
      × (logins (released g c s.token s).log ≡ logins s.log)
unfolding released holds is_login same
released-lem g c s = go s.token refl
  where
    go :
        (t : Option Text)
        → s.token ≡ t
        → (holds (released g c t s).token ≡ false) × (logins (released g c t s).log ≡ logins s.log)
    go none e = (rw e refl, refl)
    go (some t) e = ground (
      arith,
      logins-append_one s.log (
          post (ctrl_url g c) (codes "releaseToken")
            (soap_envelope (codes "releaseToken") ((codes "token", t, none) ∷ []))),
    )

-- A run from a fresh or a logged in client.
pub run_client-RunEnd :
    (g : Gateway) (c : EcaccessClient) (decode : Text → Text) (rounds : ℕ) (script : Text) {n : ℕ}
    (s : State)
    → Start n s
    → RunEnd n (run_client g c decode rounds script s)
unfolding run_client
run_client-RunEnd g c decode rounds script {n} s h =
    go (run_script g c decode rounds script s) ((run_script-Does g c decode rounds script).at s h)
  where
    ends :
        (a : Result CommandResult) (t : State)
        → Within n t
        → RunEnd n
            (finished {A = Waiting (Result CommandResult)} (returns (some a)) (release_token g c t))
    ends a t w =
        let (empty, same_logins) = released-lem g c t in
        rw (release_token-released g c t) (done a _ (rw same_logins w.once) empty)

    go :
        (o : Outcome (Waiting (Result CommandResult)) × State)
        → Ends (Within n) (Within n) o
        → RunEnd n (cleaned_up (release_token g c) (reported o))
    go _ (fine none t w) = running t w.once
    go _ (fine (some a) t w) = ends a t w
    go _ (broke e t w) = ends _ t w
