-- ===== src/Ecaccess/Client.antt =====
-- `ECaccessClient` of ecmwf_ecaccess_perl.py. What the gateway and the file system answer is a
-- parameter, by all the calls so far; so is ElementTree's reading of a reply.
use hpc_relay.Base.{
  ℕ, Bool, true, false, List, [], ◌∷◌, ◌++◌, Option, none, some, if◌then◌else◌, ltb, leb,
}
use hpc_relay.Ecaccess.Encode.{percent_quote, b64encode}
use hpc_relay.Ecaccess.Envelope.{Param, soap_envelope}
use hpc_relay.Ecaccess.Xml.{Element, node, nil, parse_fault, find_response, return_text}
use hpc_relay.Exec.{Outcome, returns, raises, Exec, pure, raise, ◌>>=◌, ◌>>◌, catch}
use hpc_relay.FilePath.{FilePath}
use hpc_relay.Result.{
  runtime_error, file_not_found, soap_fault, no_response, empty_token, upload_failed,
  download_failed,
}
use hpc_relay.FilePath.{to_text}
use hpc_relay.Text.{Text, codes}

-- The calls to the outside of the client, of `main` and of the runner.
pub data Call : Type 0 where
  exists read_bytes unlink : FilePath → Call
  -- the address, the method of the header `SOAPAction` and the envelope
  post : Text → Text → Text → Call
  upload : Text → Text → Call
  download : Text → Call
  write_file : FilePath → Text → Call
  write_temp : Text → Call
  write_out : Text → Call
  say : Text → Call
  sleep : ℕ → Call

pub record Response : Type 0 where
  pub status_code : ℕ
  pub content : Text

-- What each call comes to, by the calls so far, the last of which it is.
pub record Gateway : Type 0 where
  pub flag : List Call → Outcome Bool
  pub bytes : List Call → Outcome Text
  pub response : List Call → Outcome Response
  -- `ET.fromstring`
  pub from_string : Text → Outcome Element

-- `self._token`, and the calls made.
pub record State : Type 0 where
  pub token : Option Text
  pub log : List Call

pub record EcaccessClient : Type 0 where
  pub cert_path : FilePath
  pub https_host : Text
  pub http_host : Text

-- A text that Python takes for true.
unfoldable pub is_filled : Text → Bool
is_filled [] = false
is_filled (c ∷ s) = true

abbrev pub recorded : State → Call → State
recorded s call = record s { log = s.log ++ call ∷ [] }

abbrev pub asks : {A : Type 0} → (List Call → Outcome A) → Call → Exec State A
asks answer call s = (answer (s.log ++ call ∷ []), recorded s call)

abbrev pub set_token : Option Text → Exec State (Unit {0})
set_token t s = (returns tt, record s { token = t })

-- with suppress(Exception): m
abbrev pub suppress : {A : Type 0} → Exec State A → Exec State (Unit {0})
suppress m = catch m (λ _. pure tt) (λ _. pure tt)

abbrev pub lift : {A : Type 0} → Outcome A → Exec State A
lift o s = (o, s)

-- The element, or the error, that `_call` and `_call_raw` make of the root of a reply.
unfoldable pub judge_reply : Text → ℕ → Element → Outcome Element
judge_reply method status root = elim (parse_fault root) [
  | some fault ↦ raises (runtime_error (soap_fault fault))
  | none ↦ elim (find_response root method) [
    | some response ↦ returns response
    | none ↦
        if ltb status 400
        then returns (node (codes "empty") none nil)
        else raises (runtime_error (no_response method status))
  ]
]

module _ (g : Gateway) (c : EcaccessClient) where
  abbrev pub ctrl_url : Text
  ctrl_url = codes "https://" ++ (c.https_host ++ codes "/axis2/services/ECaccessService")

  abbrev pub data_url : Text
  data_url = codes "http://" ++ (c.http_host ++ codes "/axis2/services/ECaccessService")

  abbrev pub dataios_url : Text
  dataios_url = codes "http://" ++ (c.http_host ++ codes "/dataios")

  unfoldable pub read_reply : Text → Response → Exec State Element
  unfolding judge_reply
  read_reply method resp = do
    root ← lift (g.from_string resp.content)
    lift (judge_reply method resp.status_code root)

  -- `_call`; no call in the repository sets `use_https`.
  unfoldable pub call_at : Bool → Text → List Param → Exec State Element
  unfolding read_reply soap_envelope
  call_at use_https method params = do
    resp ←
        asks g.response
          (post (if use_https then ctrl_url else data_url) method (soap_envelope method params))
    read_reply method resp

  unfoldable pub call : Text → List Param → Exec State Element
  unfolding call_at
  call = call_at true

  -- `_call_raw`
  unfoldable pub call_raw : Text → Text → Exec State Element
  unfolding read_reply
  call_raw method envelope = do
    resp ← asks g.response (post ctrl_url method envelope)
    read_reply method resp

  unfoldable pub log_in : Exec State Text
  unfolding call return_text is_filled b64encode
  log_in = do
    found ← asks g.flag (exists c.cert_path)
    if found
        then (do
          raw ← asks g.bytes (read_bytes c.cert_path)
          resp ←
              call (codes "getTokenFromCertificate")
                ((codes "certificate", b64encode raw, none) ∷ [])
          set_token (some (return_text resp))
          if is_filled (return_text resp)
              then pure (return_text resp)
              else raise (runtime_error empty_token))
        else raise (file_not_found (to_text c.cert_path))

  unfoldable pub token_or_log_in : Option Text → Exec State Text
  unfolding is_filled log_in
  token_or_log_in none = log_in
  token_or_log_in (some t) = if is_filled t then pure t else log_in

  -- `authenticate`
  unfoldable pub authenticate : Exec State Text
  unfolding token_or_log_in
  authenticate s = token_or_log_in s.token s

  abbrev pub release : Text → Exec State (Unit {0})
  release t = suppress (call (codes "releaseToken") ((codes "token", t, none) ∷ []))

  unfoldable pub release_held : Option Text → Exec State (Unit {0})
  unfolding call is_filled
  release_held none = pure tt
  release_held (some t) = if is_filled t then (do release t; set_token none) else pure tt

  -- `release_token`
  unfoldable pub release_token : Exec State (Unit {0})
  unfolding release_held
  release_token s = release_held s.token s

  -- `_upload_data`
  abbrev pub upload_body : Text → Text → Text
  upload_body handle content =
      codes "-----------------------------154328737501\r\n"
      ++ (codes "Content-Disposition: form-data; name=\"fileupload\"; filename=\""
          ++ (percent_quote handle
              ++ (codes "\"\r\nContent-Type: application/octet-stream\r\n\r\n"
                  ++ (content ++ codes "\r\n-----------------------------154328737501--\r\n"))))

  unfoldable pub upload_data : Text → Text → Exec State (Unit {0})
  unfolding percent_quote
  upload_data handle content = do
    resp ← asks g.response (upload dataios_url (upload_body handle content))
    if leb 400 resp.status_code
        then raise (runtime_error (upload_failed resp.status_code))
        else pure tt

  -- `_download_data`
  unfoldable pub download_data : Text → Exec State Text
  unfolding percent_quote
  download_data handle = do
    resp ← asks g.response (download (dataios_url ++ (codes "?handle=" ++ percent_quote handle)))
    if leb 400 resp.status_code
        then raise (runtime_error (download_failed resp.status_code))
        else pure resp.content

  -- `_close_handle`
  unfoldable pub close_handle : Text → Exec State (Unit {0})
  unfolding call
  close_handle handle = do call (codes "closeHandle") ((codes "handle", handle, none) ∷ []); pure tt

  -- `get_gateway_name`
  unfoldable pub get_gateway_name : Exec State Text
  unfolding call return_text
  get_gateway_name = do resp ← call (codes "getGatewayName") []; pure (return_text resp)

  -- `delete_job`
  unfoldable pub delete_job : Text → Exec State (Unit {0})
  unfolding authenticate call
  delete_job job_id = do
    token ← authenticate
    call (codes "deleteJob") ((codes "token", token, none) ∷ (codes "jobid", job_id, none) ∷ [])
    pure tt

  -- `restart_job`
  unfoldable pub restart_job : Text → Exec State (Unit {0})
  unfolding authenticate call
  restart_job job_id = do
    token ← authenticate
    call (codes "restartJob") ((codes "token", token, none) ∷ (codes "jobId", job_id, none) ∷ [])
    pure tt
