-- ===== src/Ecaccess/Sent.antt =====
-- How the script of `submit_job` gets to ECMWF: the order of the requests, and that a failed step ends it.
use hpc_relay.Base.{
  ℕ, suc, ◌∙◌, ap, ◌≤◌, ◌≡◌, refl, sym, inl, inr, Bool, true, false, List, [], ◌∷◌, ◌++◌, none,
  some, if◌then◌else◌, arith, Bool-cases, take, length, append_assoc, ◌==◌,
}
use hpc_relay.Ecaccess.Client.{
  Call, exists, read_bytes, post, upload, Gateway, State, EcaccessClient, is_filled, recorded, asks,
  call, upload_data, close_handle, ctrl_url, dataios_url, upload_body,
}
use hpc_relay.Ecaccess.Effects.{upload_data-state, close_handle-state, call-state}
use hpc_relay.Ecaccess.Envelope.{Param, SubmitArgs, soap_envelope, submit_envelope}
use hpc_relay.Ecaccess.Jobs.{or_text, send_script, send_content, send_data, send_read, copy_script}
use hpc_relay.Ecaccess.Succeeded.{
  Accepted, Succeeded, is_there, is_read, is_accepted, is_uploaded, AllSucceeded, none_made, made,
  AllSucceeded-snoc, call-Accepted, close_handle-Accepted, upload_data-Uploaded,
}
use mathlib.Core.Path.{subst}
use hpc_relay.Ecaccess.Xml.{Element, return_text}
use hpc_relay.Exec.{Outcome, returns, raises, Exec, pure, raise, and_then}
use hpc_relay.FilePath.{FilePath, to_path, name_of}
use hpc_relay.Result.{Exc, runtime_error, file_not_found, no_output_handle}
use hpc_relay.Text.{Text, codes}
use hpc_relay.Text.Split.{after_last}

module _ (g : Gateway) (c : EcaccessClient) (args : SubmitArgs) (token temp_file : Text) where
  -- A SOAP request.
  abbrev pub request : Text → List Param → Call
  request method params = post (ctrl_url g c) method (soap_envelope method params)

  abbrev pub script : FilePath
  script = to_path args.script_path

  abbrev pub handle_params : List Param
  handle_params =
      (codes "token", token, none)
      ∷ (codes "target", temp_file, none)
      ∷ (codes "offset", codes "0", none)
      ∷ (codes "umask", codes "640", none)
      ∷ []

  abbrev pub copy_params : List Param
  copy_params =
      (codes "token", token, none)
      ∷ (codes "source", args.script_path, none)
      ∷ (codes "target", temp_file, none)
      ∷ (codes "erase", codes "false", some (codes "xsd:boolean"))
      ∷ []

  abbrev pub delete_params : List Param
  delete_params =
      (codes "token", token, none)
      ∷ (codes "source", temp_file, none)
      ∷ (codes "force", codes "true", some (codes "xsd:boolean"))
      ∷ []

  -- The name of the job.
  unfoldable pub submit_name : Text
  submit_name = or_text args.job_name (
      if args.distant
      then after_last (λ d. d == b':') (after_last (λ d. d == b'/') args.script_path)
      else name_of script)

  -- How the script gets to ECMWF, by the handle and the content: it is read, a handle is opened for the
  -- temporary file, the content goes there, and the handle is closed; a remote script is copied.
  abbrev pub script_calls : Bool → Text → Text → List Call
  script_calls true handle content = request (codes "copyFile") copy_params ∷ []
  script_calls false handle content =
      exists script
      ∷ read_bytes script
      ∷ request (codes "getOutputFileHandle") handle_params
      ∷ upload (dataios_url g c) (upload_body g c handle content)
      ∷ request (codes "closeHandle") ((codes "handle", handle, none) ∷ [])
      ∷ []

  -- What follows: the job is submitted, and the temporary file deleted.
  abbrev pub submit_calls : List Call
  submit_calls =
      post (ctrl_url g c) (codes "submitJob") (submit_envelope args token submit_name temp_file)
      ∷ request (codes "deleteFile") delete_params
      ∷ []

  -- What the file system gave for the script.
  abbrev pub IsContent : List Call → Text → Type 0
  IsContent log content = g.bytes (log ++ exists script ∷ read_bytes script ∷ []) ≡ returns content

  -- An end of the second step: all its requests succeeded, in order, with the content of the script; or
  -- those before the last one did, and none was made after it.
  pub data SendEnd (log : List Call) : Outcome Text × State → Type 0 where
    sent :
        (handle content name : Text) (t : State)
        → name ≡ submit_name
        → t.log ≡ log ++ script_calls args.distant handle content
        → AllSucceeded g log (script_calls args.distant handle content)
        → (args.distant ≡ false → IsContent log content)
        → SendEnd log (returns name, t)
    unsent :
        (k : ℕ) (handle content : Text) (e : Exc) (t : State)
        → suc k ≤ length (script_calls args.distant handle content)
        → t.log ≡ log ++ take (suc k) (script_calls args.distant handle content)
        → AllSucceeded g log (take k (script_calls args.distant handle content))
        → SendEnd log (raises e, t)

  module _ (log : List Call) (local : args.distant ≡ false) where
    abbrev calls : Text → Text → List Call
    calls = script_calls false

    -- A step that makes the call `d` behind the first `k` calls.
    step :
        {A : Type 0} (k : ℕ) (handle content : Text) (d : Call) (o : Outcome A × State) (s : State)
        (f : A → Exec State Text)
        → suc k ≤ 5
        → take (suc k) (calls handle content) ≡ take k (calls handle content) ++ d ∷ []
        → s.log ≡ log ++ take k (calls handle content)
        → AllSucceeded g log (take k (calls handle content))
        → o.1 ≡ recorded s d
        → ((a : A) → o.0 ≡ returns a → Succeeded g (s.log ++ d ∷ []) d)
        → ((a : A)
            → o.0 ≡ returns a
            → AllSucceeded g log (take (suc k) (calls handle content))
            → SendEnd log (f a (recorded s d)))
        → SendEnd log (and_then o f)
    step k handle content d (returns a, u) s f low next e all q succeeds goes_on = rw q (
        goes_on a refl (
          subst (AllSucceeded g log) (sym next) (
            AllSucceeded-snoc g log (take k (calls handle content)) d all (
              subst (λ l. Succeeded g l d)
                (ap (λ l. l ++ d ∷ []) e
                  ∙ append_assoc log (take k (calls handle content)) (d ∷ []))
                (succeeds a refl)))))
    step k handle content d (raises x, u) s f low next e all q succeeds goes_on =
        unsent k handle content x u (rw local low)
          (rw (q, e, local, next) (append_assoc log (take k (calls handle content)) (d ∷ [])))
          (rw local all)

  local_name : args.distant ≡ false → submit_name ≡ or_text args.job_name (name_of script)
  unfolding submit_name
  local_name local = rw local refl

  module _ (log : List Call) (local : args.distant ≡ false) where
    send_content-SendEnd :
        (content handle : Text) (s : State)
        → s.log ≡ log ++ take 3 (script_calls false handle content)
        → AllSucceeded g log (take 3 (script_calls false handle content))
        → IsContent log content
        → SendEnd log (send_content g c args content handle s)
    unfolding send_content
    send_content-SendEnd content handle s e all is =
        step log local 3 handle content (upload (dataios_url g c) (upload_body g c handle content))
          (upload_data g c handle content s) s _ (omega arith) refl e all
          (upload_data-state g c handle content s)
          (λ a q. is_uploaded _ _ (upload_data-Uploaded g c handle content s a q))
          (λ _ _ all_4.
            step log local 4 handle content
              (request (codes "closeHandle") ((codes "handle", handle, none) ∷ []))
              (close_handle g c handle _)
              (recorded s (upload (dataios_url g c) (upload_body g c handle content))) _
              (omega arith) refl (rw e (simp append_assoc)) all_4 (close_handle-state g c handle _)
              (λ a q. is_accepted _ _ _ (close_handle-Accepted g c handle _ a q))
              (λ _ _ all_5.
                sent handle content _ _ (sym (local_name local)) (rw (e, local) (simp append_assoc))
                  (rw local all_5) (λ _. is)))

    send_data-SendEnd :
        (content : Text) (s : State)
        → s.log ≡ log ++ take 2 (script_calls false [] content)
        → AllSucceeded g log (take 2 (script_calls false [] content))
        → IsContent log content
        → SendEnd log (send_data g c args token temp_file content s)
    unfolding send_data
    send_data-SendEnd content s e all is =
        step log local 2 [] content (request (codes "getOutputFileHandle") handle_params)
          (call g c _ handle_params s) s _ (omega arith) refl e all
          (call-state g c _ handle_params s)
          (λ a q. is_accepted _ _ _ (call-Accepted g c _ handle_params s a q))
          (λ resp _ all_3. go resp all_3)
      where
        t : State
        t = recorded s (request (codes "getOutputFileHandle") handle_params)

        go :
            (resp : Element)
            → AllSucceeded g log (take 3 (script_calls false [] content))
            → SendEnd log (
                (if is_filled (return_text resp)
                    then send_content g c args content (return_text resp)
                    else raise (runtime_error no_output_handle))
                  t)
        go resp all_3 = elim (Bool-cases (is_filled (return_text resp))) [
          | inl y ↦ rw y (
              send_content-SendEnd content (return_text resp) t (rw e (simp append_assoc)) all_3 is)
          | inr z ↦ rw z (
              unsent 2 [] content _ t (rw local (omega arith)) (rw (e, local) (simp append_assoc))
                (rw local all))
        ]

    send_read-SendEnd :
        (s : State)
        → s.log ≡ log ++ take 1 (script_calls false [] [])
        → AllSucceeded g log (take 1 (script_calls false [] []))
        → SendEnd log (send_read g c args token temp_file s)
    unfolding send_read
    send_read-SendEnd s e all =
        step log local 1 [] [] (read_bytes script) (asks g.bytes (read_bytes script) s) s _
          (omega arith) refl e all refl (λ content q. is_read script content q)
          (λ content q all_2. send_data-SendEnd content _ (rw e (simp append_assoc)) all_2 (
            subst (λ l. g.bytes l ≡ returns content)
              (ap (λ l. l ++ read_bytes script ∷ []) e
                ∙ append_assoc log (exists script ∷ []) (read_bytes script ∷ []))
              q))

    send_script-SendEnd :
        (s : State) → s.log ≡ log → SendEnd log (send_script g c args token temp_file s)
    unfolding send_script
    send_script-SendEnd s e = go (g.flag (s.log ++ exists script ∷ [])) refl
      where
        t : State
        t = recorded s (exists script)

        log_is : t.log ≡ log ++ exists script ∷ []
        log_is = ap (λ l. l ++ exists script ∷ []) e

        go :
            (o : Outcome Bool)
            → g.flag (s.log ++ exists script ∷ []) ≡ o
            → SendEnd log (
                and_then
                  (o, t)
                  (λ found.
                    if found
                    then send_read g c args token temp_file
                    else raise (file_not_found args.script_path)))
        go (returns true) q = send_read-SendEnd t log_is (
            made log (exists script) []
              (subst (λ l. Succeeded g (l ++ exists script ∷ []) (exists script)) e
                (is_there script q))
              (none_made _))
        go (returns false) q =
            unsent 0 [] [] _ t (rw local (omega arith)) (rw local log_is) (none_made log)
        go (raises x) q =
            unsent 0 [] [] x t (rw local (omega arith)) (rw local log_is) (none_made log)

  copy_script-SendEnd :
      (s : State) → args.distant ≡ true → SendEnd s.log (copy_script g c args token temp_file s)
  unfolding copy_script submit_name
  copy_script-SendEnd s distant =
      go (call g c (codes "copyFile") copy_params s)
        (call-state g c (codes "copyFile") copy_params s)
        (call-Accepted g c (codes "copyFile") copy_params s)
    where
      go :
          (o : Outcome Element × State)
          → o.1 ≡ recorded s (request (codes "copyFile") copy_params)
          → ((a : Element)
              → o.0 ≡ returns a
              → Accepted g (s.log ++ request (codes "copyFile") copy_params ∷ []))
          → SendEnd s.log (
              and_then o (λ _. pure (
                or_text args.job_name
                  (after_last (λ d. d == b':') (after_last (λ d. d == b'/') args.script_path)))))
      go (returns a, t) e h =
          sent [] [] _ t (rw distant refl) (rw (e, distant) refl)
            (rw distant (made s.log _ [] (is_accepted _ _ _ (h a refl)) (none_made _)))
            (λ local. absurd (cc (distant, local)))
      go (raises x, t) e h =
          unsent 0 [] [] x t (rw distant (omega arith)) (rw (e, distant) refl) (none_made s.log)

  pub send-SendEnd :
      (s : State)
      → SendEnd s.log (
          (if args.distant
              then copy_script g c args token temp_file
              else send_script g c args token temp_file)
            s)
  send-SendEnd s = go args.distant refl
    where
      go :
          (b : Bool)
          → args.distant ≡ b
          → SendEnd s.log (
              (if b
                  then copy_script g c args token temp_file
                  else send_script g c args token temp_file)
                s)
      go true e = copy_script-SendEnd s e
      go false e = send_script-SendEnd s.log e s refl
