-- ===== src/Ecaccess/Succeeded.antt =====
-- Calls of the ECaccess client that succeeded, by what the gateway and the file system answered.
use hpc_relay.Base.{
  ◌≡◌, refl, inl, inr, true, false, List, [], ◌∷◌, ◌++◌, none, leb, append_assoc, Option-cases,
  Bool-cases, arith,
}
use hpc_relay.Ecaccess.Client.{
  Call, exists, read_bytes, post, upload, Response, Gateway, State, EcaccessClient, judge_reply,
  read_reply, call, call_raw, upload_data, close_handle, ctrl_url, dataios_url, upload_body,
}
use hpc_relay.Ecaccess.Envelope.{Param, soap_envelope}
use hpc_relay.Ecaccess.Xml.{Element, parse_fault}
use hpc_relay.Exec.{Outcome, returns, raises, pure, and_then}
use hpc_relay.Text.{Text, codes}

-- The gateway answered the last of these calls, with a reply that is XML and holds no fault.
pub record Accepted (g : Gateway) (log : List Call) : Type 0 where
  pub resp : Response
  pub root : Element
  pub answers : g.response log ≡ returns resp
  pub is_xml : g.from_string resp.content ≡ returns root
  pub no_fault : parse_fault root ≡ none

-- The upload that is the last of these calls was answered with a status below 400.
pub record Uploaded (g : Gateway) (log : List Call) : Type 0 where
  pub resp : Response
  pub answers : g.response log ≡ returns resp
  pub status_below : leb 400 resp.status_code ≡ false

-- The call succeeded, being the last of the calls `log`: the file is there, it was read, the request was
-- accepted, or the data were uploaded. No other call is made here.
pub data Succeeded (g : Gateway) (log : List Call) : Call → Type 0 where
  is_there : (p : _) → g.flag log ≡ returns true → Succeeded g log (exists p)
  is_read : (p : _) (raw : Text) → g.bytes log ≡ returns raw → Succeeded g log (read_bytes p)
  is_accepted :
      (url method envelope : Text) → Accepted g log → Succeeded g log (post url method envelope)
  is_uploaded : (url body : Text) → Uploaded g log → Succeeded g log (upload url body)

-- Each of the calls, made one after the other behind the calls `log`, succeeded.
pub data AllSucceeded (g : Gateway) : List Call → List Call → Type 0 where
  none_made : (log : List Call) → AllSucceeded g log []
  made :
      (log : List Call) (k : Call) (calls : List Call)
      → Succeeded g (log ++ k ∷ []) k
      → AllSucceeded g (log ++ k ∷ []) calls
      → AllSucceeded g log (k ∷ calls)

pub AllSucceeded-snoc :
    (g : Gateway) (log calls : List Call) (k : Call)
    → AllSucceeded g log calls
    → Succeeded g (log ++ (calls ++ k ∷ [])) k
    → AllSucceeded g log (calls ++ k ∷ [])
AllSucceeded-snoc g log _ k (none_made _) h = made log k [] h (none_made _)
AllSucceeded-snoc g log _ k (made _ c calls s rest) h = made log c (calls ++ k ∷ []) s (
    AllSucceeded-snoc g (log ++ c ∷ []) calls k rest
      (rw (append_assoc log (c ∷ []) (calls ++ k ∷ [])) h))

module _ (g : Gateway) (c : EcaccessClient) where
  replied :
      (l : List Call) (s : State) (method : Text) (a : Element)
      → (o : Outcome Response) → g.response l ≡ o
      → (and_then (o, s) (read_reply g c method)).0 ≡ returns a
      → Accepted g l
  unfolding read_reply judge_reply
  replied l s method a (raises e) h q = absurd (ground arith)
  replied l s method a (returns resp) h q = parsed (g.from_string resp.content) refl q
    where
      parsed :
          (o : Outcome Element)
          → g.from_string resp.content ≡ o
          → (and_then (o, s) (λ root t. (judge_reply method resp.status_code root, t))).0
            ≡ returns a
          → Accepted g l
      parsed (raises e) f r = absurd (ground arith)
      parsed (returns root) f r = elim (Option-cases (parse_fault root)) [
        | inl n ↦ record { resp = resp; root = root; answers = h; is_xml = f; no_fault = n }
        | inr (t, y) ↦ absurd (ground (arith, r, y))
      ]

  pub call-Accepted :
      (method : Text) (params : List Param) (s : State) (a : Element)
      → (call g c method params s).0 ≡ returns a
      → Accepted g (s.log ++ post (ctrl_url g c) method (soap_envelope method params) ∷ [])
  unfolding call
  call-Accepted method params s a h = replied _ _ method a _ refl h

  pub call_raw-Accepted :
      (method envelope : Text) (s : State) (a : Element)
      → (call_raw g c method envelope s).0 ≡ returns a
      → Accepted g (s.log ++ post (ctrl_url g c) method envelope ∷ [])
  unfolding call_raw
  call_raw-Accepted method envelope s a h = replied _ _ method a _ refl h

  pub close_handle-Accepted :
      (handle : Text) (s : State) (a : Unit {0})
      → (close_handle g c handle s).0 ≡ returns a
      → Accepted g (
          s.log
          ++ post
              (ctrl_url g c)
              (codes "closeHandle")
              (soap_envelope (codes "closeHandle") ((codes "handle", handle, none) ∷ []))
            ∷ [])
  unfolding close_handle
  close_handle-Accepted handle s a h =
      go (call g c (codes "closeHandle") ((codes "handle", handle, none) ∷ []) s)
        (call-Accepted (codes "closeHandle") ((codes "handle", handle, none) ∷ []) s) h
    where
      L : List Call
      L =
          s.log
          ++ post (ctrl_url g c) (codes "closeHandle")
              (soap_envelope (codes "closeHandle") ((codes "handle", handle, none) ∷ []))
            ∷ []

      go :
          (o : Outcome Element × State)
          → ((x : Element) → o.0 ≡ returns x → Accepted g L)
          → (and_then o (λ _. pure tt)).0 ≡ returns a
          → Accepted g L
      go (returns x, t) k q = k x refl
      go (raises e, t) k q = absurd (ground arith)

  pub upload_data-Uploaded :
      (handle content : Text) (s : State) (a : Unit {0})
      → (upload_data g c handle content s).0 ≡ returns a
      → Uploaded g (s.log ++ upload (dataios_url g c) (upload_body g c handle content) ∷ [])
  unfolding upload_data
  upload_data-Uploaded handle content s a h = go _ refl h
    where
      L : List Call
      L = s.log ++ upload (dataios_url g c) (upload_body g c handle content) ∷ []

      go :
          (o : Outcome Response)
          → g.response L ≡ o
          → (upload_data g c handle content s).0 ≡ returns a
          → Uploaded g L
      go (raises e) k q = absurd (ground (arith, k, q))
      go (returns resp) k q = elim (Bool-cases (leb 400 resp.status_code)) [
        | inl y ↦ absurd (ground (arith, k, q, y))
        | inr n ↦ record { resp = resp; answers = k; status_below = n }
      ]
