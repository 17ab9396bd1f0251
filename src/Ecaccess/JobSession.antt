-- ===== src/Ecaccess/JobSession.antt =====
-- Submission and output of a job in a session.
use hpc_relay.Base.{ℕ, ◌≡◌, refl, arith}
use hpc_relay.Ecaccess.Client.{
  Gateway, State, EcaccessClient, suppress, lift, call, download_data, close_handle,
}
use hpc_relay.Ecaccess.Envelope.{SubmitArgs}
use hpc_relay.Ecaccess.Jobs.{
  finally, finished, handle_method, send_script, send_read, send_data, send_content, copy_script,
  submit_with, submit_job, fetch, delete_temp, get_job_output,
}
use hpc_relay.Ecaccess.Session.{with_token, call-Held}
use hpc_relay.Ecaccess.Token.{
  is_login, Held, Within, Start, Other, Held-Stable, Held-Kept, Within-Stable, Does-suppress,
  asks-Does, raise-Does, bind-Does, then-Does, if-Does, pure-Does, call-Does, call_raw-Does,
  upload_data-Does, download_data-Does, close_handle-Does,
}
use hpc_relay.Exec.Triple.{Ends, fine, broke, Does}
use hpc_relay.Exec.{Outcome, returns, raises, Exec, ◌>>=◌, handle}
use hpc_relay.Result.{Exc}
use hpc_relay.Text.{Text, codes, same}

module _ (g : Gateway) (c : EcaccessClient) {n : ℕ} where
  send_script-Does :
      (args : SubmitArgs) (token temp_file : Text)
      → Does (Held n) (Held n) (Within n) (send_script g c args token temp_file)
  unfolding send_script send_read send_data send_content is_login same
  send_script-Does args token temp_file =
      search
        (
          bind-Does Held-Stable,
          then-Does Held-Stable,
          if-Does Held-Stable,
          pure-Does Held-Stable,
          raise-Does Held-Stable,
          asks-Does Held-Stable,
          call-Held,
          upload_data-Does Held-Stable,
          close_handle-Does Held-Stable,
        )
        depth 9

  delete_temp-Does :
      (token temp_file : Text) → Does (Held n) (Held n) (Within n) (delete_temp g c token temp_file)
  unfolding same
  delete_temp-Does token temp_file =
      Does-suppress (call g c (codes "deleteFile") _) (call-Does Held-Kept g c _ _ refl)

  submit_with-Does :
      (args : SubmitArgs) (token temp_file : Text)
      → Does (Held n) (Held n) (Within n) (submit_with g c args token temp_file)
  unfolding submit_with copy_script is_login same
  submit_with-Does args token temp_file =
      search
        (
          bind-Does Held-Stable,
          then-Does Held-Stable,
          if-Does Held-Stable,
          pure-Does Held-Stable,
          call-Held,
          call_raw-Does Held-Stable,
          send_script-Does,
          delete_temp-Does,
        )
        depth 9

  pub submit_job-Does :
      (args : SubmitArgs) → Does (Start n) (Held n) (Within n) (submit_job g c args)
  unfolding submit_job same
  submit_job-Does args = with_token g c _ (λ t. search (
    bind-Does Held-Stable,
    if-Does Held-Stable,
    raise-Does Held-Stable,
    call-Held,
    submit_with-Does,
  ))

module _ {A : Type 0} {P W : State → Type 0} where
  -- A cleanup that keeps what holds on both ends.
  pub Does-finally :
      (m : Exec State A) (k : Exec State (Unit {0}))
      → Does P P W m
      → Does P P W k
      → Does W W W k
      → Does P P W (finally m k)
  Does-finally m k dm dk dw = record { at = λ s h. go (m s) (dm.at s h) }
    where
      done :
          (o : Outcome A) (r : Outcome (Unit {0}) × State)
          → ((s : State) → P s → Ends P W (o, s))
          → Ends P W r
          → Ends P W (finished o r)
      done o _ keep (fine a s h) = keep s h
      done o _ keep (broke e s h) = broke e s h

      failed :
          (x : Exc) (r : Outcome (Unit {0}) × State)
          → Ends W W r
          → Ends {S = State} {A = A} P W (finished (raises x) r)
      failed x _ (fine a s h) = broke x s h
      failed x _ (broke e s h) = broke e s h

      go : (o : Outcome A × State) → Ends P W o → Ends P W (finished o.0 (k o.1))
      go _ (fine a s h) = done (returns a) (k s) (fine a) (dk.at s h)
      go _ (broke e s h) = failed e (k s) (dw.at s h)

-- No key of `get_job_output` names the exchange.
is_handle_method : (which method : Text) → handle_method which ≡ returns method → Other method
unfolding handle_method same
is_handle_method which method h = ground arith

module _ (g : Gateway) (c : EcaccessClient) {n : ℕ} where
  fetch-Does : (handle : Text) → Does (Held n) (Held n) (Within n) (fetch g c handle)
  fetch-Does handle =
      Does-finally (download_data g c handle) (suppress (close_handle g c handle))
        (download_data-Does Held-Stable g c handle)
        (Does-suppress _ (close_handle-Does Held-Kept g c handle))
        (Does-suppress _ (close_handle-Does Within-Stable g c handle))

  with_method :
      (o : Outcome Text) (m : Text → Exec State Text)
      → ((method : Text) → o ≡ returns method → Does (Held n) (Held n) (Within n) (m method))
      → Does (Held n) (Held n) (Within n) (lift o >>= m)
  with_method (returns method) m d = d method refl
  with_method (raises e) m d = raise-Does Held-Stable e

  pub get_job_output-Does :
      (job_id which : Text) → Does (Start n) (Held n) (Within n) (get_job_output g c job_id which)
  unfolding get_job_output
  get_job_output-Does job_id which = with_token g c _ (λ t.
      with_method (handle_method which) _ (λ method other. search (
        bind-Does Held-Stable,
        if-Does Held-Stable,
        raise-Does Held-Stable,
        call-Does Held-Stable,
        is_handle_method which method other,
        fetch-Does,
      )))
