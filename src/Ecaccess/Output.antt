-- ===== src/Ecaccess/Output.antt =====
-- The handle of `get_job_output`: it is closed whatever becomes of the download.
use hpc_relay.Base.{
  ℕ, suc, ◌≡◌, refl, ◌∙◌, Bool, true, false, List, [], ◌∷◌, ◌++◌, Option, none, some, if◌then◌else◌,
  arith, append_assoc,
}
use hpc_relay.Ecaccess.Client.{
  Call, post, download, Gateway, State, EcaccessClient, is_filled, recorded, asks, set_token, lift,
  call, read_reply, log_in, token_or_log_in, authenticate, download_data, close_handle, ctrl_url,
  dataios_url,
}
use hpc_relay.Ecaccess.Effects.{download_data-state, close_handle-state, suppress-eq}
use hpc_relay.Ecaccess.Encode.{percent_quote}
use hpc_relay.Ecaccess.Envelope.{Param, soap_envelope}
use hpc_relay.Ecaccess.Jobs.{handle_method, fetch, get_job_output}
use hpc_relay.Ecaccess.Xml.{Element, return_text}
use hpc_relay.Exec.Keeps.{Keeps, Keeps-pure, Keeps-raise, Keeps-if, Keeps-bind, Keeps-then}
use hpc_relay.Exec.{Outcome, returns, raises, raise, ◌>>=◌, and_then}
use hpc_relay.Result.{Exc, runtime_error, no_job_handle}
use hpc_relay.Text.{Text, codes}

unfoldable pub is_download : Call → Bool
is_download (download url) = true
is_download _ = false

-- The downloads of a log.
unfoldable pub downloads : List Call → ℕ
unfolding is_download
downloads [] = 0
downloads (call ∷ log) = let n = downloads log in if is_download call then suc n else n

downloads-append_one :
    (log : List Call) (k : Call) → is_download k ≡ false → downloads (log ++ k ∷ []) ≡ downloads log
unfolding downloads
downloads-append_one [] k e = rw e refl
downloads-append_one (x ∷ log) k e = ground (arith, downloads-append_one log k e)

-- So many downloads were made.
record Made (n : ℕ) (s : State) : Type 0 where
  made : downloads s.log ≡ n

module _ {n : ℕ} where
  asks-Keeps :
      {A : Type 0} (answer : List Call → Outcome A) (k : Call)
      → is_download k ≡ false
      → Keeps (Made n) (asks answer k)
  asks-Keeps answer k e = record {
    at = λ s h. record { made = downloads-append_one s.log k e ∙ h.made };
  }

  lift-Keeps : {A : Type 0} (o : Outcome A) → Keeps (Made n) (lift o)
  lift-Keeps o = record { at = λ s h. h }

  set_token-Keeps : (t : Option Text) → Keeps (Made n) (set_token t)
  set_token-Keeps t = record { at = λ s h. record { made = h.made } }

  module _ (g : Gateway) (c : EcaccessClient) where
    call-Keeps : (method : Text) (params : List Param) → Keeps (Made n) (call g c method params)
    unfolding call read_reply is_download
    call-Keeps method params = search (Keeps-bind, asks-Keeps, lift-Keeps)

    log_in-Keeps : Keeps (Made n) (log_in g c)
    unfolding log_in is_download
    log_in-Keeps =
        search
          (
            Keeps-bind, Keeps-then, Keeps-if, Keeps-pure, Keeps-raise, asks-Keeps, set_token-Keeps,
            call-Keeps,
          )
          depth 9

    token_or_log_in-Keeps : (held : Option Text) → Keeps (Made n) (token_or_log_in g c held)
    unfolding token_or_log_in
    token_or_log_in-Keeps none = log_in-Keeps
    token_or_log_in-Keeps (some t) = search (Keeps-if, Keeps-pure, log_in-Keeps)

    authenticate-Keeps : Keeps (Made n) (authenticate g c)
    unfolding authenticate
    authenticate-Keeps = record { at = λ s h. (token_or_log_in-Keeps s.token).at s h }

module _ (g : Gateway) (c : EcaccessClient) where
  -- The two requests of a download.
  abbrev pub fetch_calls : Text → List Call
  fetch_calls handle =
      download (dataios_url g c ++ (codes "?handle=" ++ percent_quote handle))
      ∷ post (ctrl_url g c) (codes "closeHandle")
          (soap_envelope (codes "closeHandle") ((codes "handle", handle, none) ∷ []))
      ∷ []

  fetch_lem :
      (handle : Text) (s : State)
      → fetch g c handle s
        ≡ ((download_data g c handle s).0, record s { log = s.log ++ fetch_calls handle })
  fetch_lem handle s =
      rw
        (
          suppress-eq g c (close_handle g c handle) (download_data g c handle s).1,
          download_data-state g c handle s,
          close_handle-state g c handle (recorded s _),
        )
        (rw (append_assoc s.log) refl)

  -- How `get_job_output` ends, after so many downloads: it made no other, and raises; or it made one
  -- more, the handle was closed right after it, and what came of the download is its end.
  pub data OutputEnd (n : ℕ) : Outcome Text × State → Type 0 where
    refused : (e : Exc) (t : State) → downloads t.log ≡ n → OutputEnd n (raises e, t)
    fetched :
        (handle : Text) (before : State) (t : State)
        → downloads before.log ≡ n
        → t.log ≡ before.log ++ fetch_calls handle
        → OutputEnd n ((download_data g c handle before).0, t)

  pub get_job_output-OutputEnd :
      (job_id which : Text) (s : State)
      → OutputEnd (downloads s.log) (get_job_output g c job_id which s)
  unfolding get_job_output
  get_job_output-OutputEnd job_id which s =
      go (authenticate g c s) ((authenticate-Keeps g c).at s (record { made = refl }))
    where
      n : ℕ
      n = downloads s.log

      filled_or_not :
          (b : Bool) (handle : Text) (e : Exc) (t : State)
          → Made n t
          → OutputEnd n ((if b then fetch g c handle else raise e) t)
      filled_or_not true handle e t m = rw (fetch_lem handle t) (fetched handle t _ m.made refl)
      filled_or_not false handle e t m = refused e t m.made

      answered :
          (o : Outcome Element × State)
          → Made n o.1
          → OutputEnd n (
              and_then o (λ resp.
                if is_filled (return_text resp)
                then fetch g c (return_text resp)
                else raise (runtime_error (no_job_handle job_id which))))
      answered (returns resp, t) m = filled_or_not (is_filled (return_text resp)) _ _ t m
      answered (raises e, t) m = refused e t m.made

      chosen :
          (o : Outcome Text) (token : Text) (t : State)
          → Made n t
          → OutputEnd n (
              and_then
                (o, t)
                (λ method.
                  call g c method
                    ((codes "token", token, none) ∷ (codes "jobid", job_id, none) ∷ [])
                  >>= λ resp.
                      if is_filled (return_text resp)
                      then fetch g c (return_text resp)
                      else raise (runtime_error (no_job_handle job_id which))))
      chosen (returns method) token t m =
          answered (call g c method _ t) ((call-Keeps g c method _).at t m)
      chosen (raises e) token t m = refused e t m.made

      go :
          (o : Outcome Text × State)
          → Made n o.1
          → OutputEnd n (
              and_then o (λ token. lift (handle_method which) >>= λ method.
              (call g c method ((codes "token", token, none) ∷ (codes "jobid", job_id, none) ∷ [])
                >>= λ resp.
                    if is_filled (return_text resp)
                    then fetch g c (return_text resp)
                    else raise (runtime_error (no_job_handle job_id which)))))
      go (returns token, t) m = chosen (handle_method which) token t m
      go (raises e, t) m = refused e t m.made
