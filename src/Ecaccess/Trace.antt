-- ===== src/Ecaccess/Trace.antt =====
-- The order of the requests of `submit_job`, and that a failed step ends it.
use hpc_relay.Base.{
  ℕ, zero, suc, ◌≤◌, ◌≡◌, refl, ap, ◌∙◌, false, Bool, List, [], ◌∷◌, ◌++◌, arith, take, length,
  append_assoc,
}
use hpc_relay.Ecaccess.Client.{Call, post, Gateway, State, EcaccessClient, call, call_raw, ctrl_url}
use hpc_relay.Ecaccess.Effects.{call_raw-state, call-state, suppress-eq}
use hpc_relay.Ecaccess.Envelope.{SubmitArgs, submit_envelope}
use hpc_relay.Ecaccess.Jobs.{submit_with, delete_temp}
use hpc_relay.Ecaccess.Xml.{Element, return_text}
use hpc_relay.Exec.{Outcome, returns, raises, pure, ◌>>=◌, ◌>>◌, and_then}
use hpc_relay.Result.{Exc}
use hpc_relay.Text.{Text, codes}
use mathlib.Core.Path.{subst}
use hpc_relay.Ecaccess.Succeeded.{
  Accepted, AllSucceeded, is_accepted, AllSucceeded-snoc, call_raw-Accepted,
}
use hpc_relay.Ecaccess.Sent.{
  script_calls, submit_calls, IsContent, submit_name, delete_params, SendEnd, sent, unsent,
  send-SendEnd,
}

module _ (g : Gateway) (c : EcaccessClient) (args : SubmitArgs) (token temp_file : Text) where
  -- The calls by which the script is sent, and those that follow.
  abbrev pub sends : Bool → Text → Text → List Call
  sends = script_calls g c args token temp_file

  abbrev pub submits : List Call
  submits = submit_calls g c args token temp_file

  abbrev submit : Call
  submit =
      post (ctrl_url g c) (codes "submitJob")
        (submit_envelope args token (submit_name g c args token temp_file) temp_file)

  -- An end of steps 2 to 4, which began after the calls `log`: all the requests were made, in order, and
  -- each before the deletion succeeded; or those before the last one succeeded, and none was made after it,
  -- so that there was no deletion.
  pub data SubmitEnd (log : List Call) : Outcome Text × State → Type 0 where
    submitted :
        (handle content job_id : Text) (t : State)
        → t.log ≡ log ++ (sends args.distant handle content ++ submits)
        → AllSucceeded g log (sends args.distant handle content ++ submit ∷ [])
        → (args.distant ≡ false → IsContent g c args token temp_file log content)
        → SubmitEnd log (returns job_id, t)
    stopped :
        (k : ℕ) (handle content : Text) (e : Exc) (t : State)
        → k ≤ length (sends args.distant handle content)
        → t.log ≡ log ++ take (suc k) (sends args.distant handle content ++ submits)
        → AllSucceeded g log (take k (sends args.distant handle content ++ submits))
        → SubmitEnd log (raises e, t)

  take-prefix : (k : ℕ) (xs ys : List Call) → k ≤ length xs → take k (xs ++ ys) ≡ take k xs
  take-prefix zero xs ys h = refl
  take-prefix (suc k) [] ys h = absurd (omega arith)
  take-prefix (suc k) (x ∷ xs) ys h = ap (λ l. x ∷ l) (take-prefix k xs ys (omega arith))

  take-next :
      (xs : List Call) (y : Call) (ys : List Call)
      → take (suc (length xs)) (xs ++ (y ∷ ys)) ≡ xs ++ y ∷ []
  take-next [] y ys = refl
  take-next (x ∷ xs) y ys = ap (λ l. x ∷ l) (take-next xs y ys)

  take-all : (xs ys : List Call) → take (length xs) (xs ++ ys) ≡ xs
  take-all [] ys = refl
  take-all (x ∷ xs) ys = ap (λ l. x ∷ l) (take-all xs ys)

  -- Steps 2 to 4 make their requests in order, each only after those before it succeeded: a request by a
  -- reply without a fault, the upload by a status below 400. So a job is submitted only after the content
  -- of its script was uploaded and its handle closed, or the script copied; the temporary file is deleted
  -- behind the submission, whatever comes of that. Where a step fails, no request follows, and the
  -- temporary file is not deleted.
  pub submit_with-SubmitEnd : (s : State) → SubmitEnd s.log (submit_with g c args token temp_file s)
  unfolding submit_with
  submit_with-SubmitEnd s = go _ (send-SendEnd g c args token temp_file s)
    where
      finish :
          (handle content : Text) (o : Outcome Element × State)
          → o.1.log ≡ s.log ++ (sends args.distant handle content ++ submit ∷ [])
          → AllSucceeded g s.log (sends args.distant handle content)
          → (args.distant ≡ false → IsContent g c args token temp_file s.log content)
          → ((a : Element)
              → o.0 ≡ returns a
              → Accepted g (s.log ++ (sends args.distant handle content ++ submit ∷ [])))
          → SubmitEnd s.log
              (and_then o (λ resp. delete_temp g c token temp_file >> pure (return_text resp)))
      finish handle content (returns resp, t) e all is accepted =
          rw
            (
              suppress-eq g c
                  (call g c (codes "deleteFile") (delete_params g c args token temp_file)) t,
              call-state g c (codes "deleteFile") (delete_params g c args token temp_file) t,
            )
            (submitted handle content _ _ (rw e (simp append_assoc))
              (AllSucceeded-snoc g s.log (sends args.distant handle content) submit all
                (is_accepted _ _ _ (accepted resp refl)))
              is)
      finish handle content (raises x, t) e all is accepted =
          stopped (length (sends args.distant handle content)) handle content x t (omega arith)
            (rw (take-next (sends args.distant handle content) submit _) e)
            (rw (take-all (sends args.distant handle content) submits) all)

      go :
          (o : Outcome Text × State)
          → SendEnd g c args token temp_file s.log o
          → SubmitEnd s.log (
              and_then o (λ name.
                call_raw g c (codes "submitJob") (submit_envelope args token name temp_file)
                >>= λ resp. (delete_temp g c token temp_file >> pure (return_text resp))))
      go _ (sent handle content name t n e all is) =
          let envelope =
            submit_envelope args token (submit_name g c args token temp_file) temp_file in
          let behind : t.log ++ submit ∷ []
              ≡ s.log ++ (sends args.distant handle content ++ submit ∷ []) =
            ap (λ l. l ++ submit ∷ []) e
            ∙ append_assoc s.log (sends args.distant handle content) (submit ∷ []) in
          rw n (
            finish handle content (call_raw g c (codes "submitJob") envelope t)
              (ap (λ u. u.log) (call_raw-state g c (codes "submitJob") envelope t) ∙ behind) all is
              (λ a q.
                subst (Accepted g) behind
                  (call_raw-Accepted g c (codes "submitJob") envelope t a q)))
      go _ (unsent k handle content x t low e all) =
          stopped k handle content x t (omega arith)
            (rw (take-prefix (suc k) (sends args.distant handle content) submits low) e)
            (rw (take-prefix k (sends args.distant handle content) submits (omega arith)) all)
