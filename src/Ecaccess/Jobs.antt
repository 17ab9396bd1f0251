-- ===== src/Ecaccess/Jobs.antt =====
-- The job operations of `ECaccessClient`: submission, output, and the listings.
use hpc_relay.Base.{List, [], ◌∷◌, map, Option, none, some, if◌then◌else◌, ◌==◌}
use hpc_relay.Ecaccess.Client.{
  exists, read_bytes, Gateway, State, EcaccessClient, is_filled, asks, suppress, call, call_raw,
  authenticate, upload_data, download_data, close_handle,
}
use hpc_relay.Ecaccess.Envelope.{SubmitArgs, submit_envelope}
use hpc_relay.Ecaccess.Xml.{Element, return_text, get_returns, elem_field, elem_fields}
use hpc_relay.Exec.{Outcome, returns, raises, Exec, pure, raise, ◌>>=◌, ◌>>◌}
use hpc_relay.FilePath.{to_path, name_of}
use hpc_relay.Result.{
  runtime_error, key_error, file_not_found, no_temporary_file, no_output_handle, no_job_handle,
}
use hpc_relay.Text.{Text, codes, same}
use hpc_relay.Text.Split.{after_last}

abbrev pub finished : {A : Type 0} → Outcome A → Outcome (Unit {0}) × State → Outcome A × State
finished o (returns _, s) = (o, s)
finished o (raises e, s) = (raises e, s)

-- try: m  finally: cleanup
abbrev pub finally : {A : Type 0} → Exec State A → Exec State (Unit {0}) → Exec State A
finally m cleanup s = finished (m s).0 (cleanup (m s).1)

-- s or t
unfoldable pub or_text : Option Text → Text → Text
or_text none t = t
or_text (some []) t = t
or_text (some (c ∷ s)) t = c ∷ s

-- The methods of `get_job_output`; any other word is no key.
unfoldable pub handle_method : Text → Outcome Text
unfolding same
handle_method which =
    if same which (codes "output")
    then returns (codes "getJobOutputHandle")
    else if same which (codes "error")
    then returns (codes "getJobErrorHandle")
    else if same which (codes "input")
    then returns (codes "getJobInputHandle")
    else raises key_error

-- A row of a listing: the names of the fields and their texts.
abbrev pub Row : Type 0
Row = List (Text × Text)

abbrev pub fields_of : List Text → Element → Row
fields_of names e = map (λ name. (name, elem_field e name)) names

-- The `dict` of a job, with the list under the key `eventIds`.
pub record JobRow : Type 0 where
  pub fields : Row
  pub event_ids : List Text

abbrev pub job_row : List Text → Element → JobRow
job_row names e = record {
  fields = fields_of names e;
  event_ids = elem_fields e (codes "eventIds");
}

abbrev detail_names : List Text
detail_names =
    codes "jobId"
    ∷ codes "name"
    ∷ codes "queueName"
    ∷ codes "hostName"
    ∷ codes "scheduledDate"
    ∷ codes "expirationDate"
    ∷ codes "tryDone"
    ∷ codes "tryCount"
    ∷ codes "status"
    ∷ codes "comment"
    ∷ codes "outputFileSize"
    ∷ codes "errorFileSize"
    ∷ codes "inputFileSize"
    ∷ []

abbrev list_names : List Text
list_names =
    codes "jobId"
    ∷ codes "queueName"
    ∷ codes "status"
    ∷ codes "tryDone"
    ∷ codes "tryCount"
    ∷ codes "scheduledDate"
    ∷ codes "name"
    ∷ []

-- The fields of a queue, each with its key in the `dict`.
abbrev queue_row : Element → Row
queue_row e =
    (codes "queueName", elem_field e (codes "queueName"))
    ∷ (codes "schedulerName", elem_field e (codes "schedulerName"))
    ∷ (codes "comment", elem_field e (codes "comment"))
    ∷ (codes "INIT", elem_field e (codes "numberOfJobsInInitState"))
    ∷ (codes "WAIT", elem_field e (codes "numberOfJobsInWaitState"))
    ∷ (codes "EXEC", elem_field e (codes "numberOfJobsInExecState"))
    ∷ (codes "DONE", elem_field e (codes "numberOfJobsInDoneState"))
    ∷ (codes "STOP", elem_field e (codes "numberOfJobsInStopState"))
    ∷ []

-- The first of the returned elements, as a list of at most one row.
unfoldable pub first_row : List Element → List JobRow
first_row [] = []
first_row (e ∷ es) = job_row detail_names e ∷ []

module _ (g : Gateway) (c : EcaccessClient) where
  -- `list_operations`
  unfoldable pub list_operations : Exec State (List Row)
  unfolding get_returns
  list_operations = do
    token ← authenticate g c
    resp ← call g c (codes "getOperationList") ((codes "token", token, none) ∷ [])
    pure (
        map (fields_of (codes "name" ∷ codes "duration" ∷ codes "endDate" ∷ codes "comment" ∷ []))
          (get_returns resp))

  -- `list_queues`
  unfoldable pub list_queues : Option Text → Exec State (List Row)
  unfolding get_returns is_filled or_text
  list_queues detail_queue = do
    token ← authenticate g c
    if is_filled (or_text detail_queue [])
        then (do
          resp ← call g c (codes "getQueueDetail") (
              (codes "token", token, none)
              ∷ (codes "queueName", or_text detail_queue [], none)
              ∷ [])
          pure (map (fields_of (codes "name" ∷ codes "comment" ∷ [])) (get_returns resp)))
        else (do
          resp ← call g c (codes "getQueueList") ((codes "token", token, none) ∷ [])
          pure (map queue_row (get_returns resp)))

  -- `list_jobs`
  unfoldable pub list_jobs : Option Text → Exec State (List JobRow)
  unfolding get_returns is_filled or_text first_row
  list_jobs job_id = do
    token ← authenticate g c
    if is_filled (or_text job_id [])
        then (do
          resp ←
              call g c (codes "getJob")
                ((codes "token", token, none) ∷ (codes "jobid", or_text job_id [], none) ∷ [])
          pure (first_row (get_returns resp)))
        else (do
          resp ← call g c (codes "getJobList") ((codes "token", token, none) ∷ [])
          pure (map (job_row list_names) (get_returns resp)))

  -- Step 2 of `submit_job` for a local script, from its end: the content goes to the handle.
  unfoldable pub send_content : SubmitArgs → Text → Text → Exec State Text
  unfolding to_path name_of or_text
  send_content args script_data handle = do
    upload_data g c handle script_data
    close_handle g c handle
    pure (or_text args.job_name (name_of (to_path args.script_path)))

  unfoldable pub send_data : SubmitArgs → Text → Text → Text → Exec State Text
  unfolding return_text is_filled
  send_data args token temp_file script_data = do
    resp ← call g c (codes "getOutputFileHandle") (
        (codes "token", token, none)
        ∷ (codes "target", temp_file, none)
        ∷ (codes "offset", codes "0", none)
        ∷ (codes "umask", codes "640", none)
        ∷ [])
    if is_filled (return_text resp)
        then send_content args script_data (return_text resp)
        else raise (runtime_error no_output_handle)

  unfoldable pub send_read : SubmitArgs → Text → Text → Exec State Text
  unfolding to_path
  send_read args token temp_file = do
    script_data ← asks g.bytes (read_bytes (to_path args.script_path))
    send_data args token temp_file script_data

  -- The whole of it, which gives the name of the job.
  unfoldable pub send_script : SubmitArgs → Text → Text → Exec State Text
  unfolding to_path
  send_script args token temp_file = do
    found ← asks g.flag (exists (to_path args.script_path))
    if found then send_read args token temp_file else raise (file_not_found args.script_path)

  -- Step 2 for a script that is at ECMWF already.
  unfoldable pub copy_script : SubmitArgs → Text → Text → Exec State Text
  unfolding or_text after_last
  copy_script args token temp_file = do
    call g c (codes "copyFile") (
        (codes "token", token, none)
        ∷ (codes "source", args.script_path, none)
        ∷ (codes "target", temp_file, none)
        ∷ (codes "erase", codes "false", some (codes "xsd:boolean"))
        ∷ [])
    pure (
        or_text args.job_name
          (after_last (λ d. d == b':') (after_last (λ d. d == b'/') args.script_path)))

  abbrev pub delete_temp : Text → Text → Exec State (Unit {0})
  delete_temp token temp_file = suppress (
      call g c (codes "deleteFile") (
        (codes "token", token, none)
        ∷ (codes "source", temp_file, none)
        ∷ (codes "force", codes "true", some (codes "xsd:boolean"))
        ∷ []))

  -- Steps 2 to 4.
  unfoldable pub submit_with : SubmitArgs → Text → Text → Exec State Text
  unfolding return_text
  submit_with args token temp_file = do
    name ←
        if args.distant then copy_script args token temp_file else send_script args token temp_file
    resp ← call_raw g c (codes "submitJob") (submit_envelope args token name temp_file)
    delete_temp token temp_file
    pure (return_text resp)

  -- `submit_job`
  unfoldable pub submit_job : SubmitArgs → Exec State Text
  unfolding return_text is_filled
  submit_job args = do
    token ← authenticate g c
    resp ← call g c (codes "getTemporaryFile") ((codes "token", token, none) ∷ [])
    if is_filled (return_text resp)
        then submit_with args token (return_text resp)
        else raise (runtime_error no_temporary_file)

  abbrev pub fetch : Text → Exec State Text
  fetch handle = finally (download_data g c handle) (suppress (close_handle g c handle))

  -- `get_job_output`
  unfoldable pub get_job_output : Text → Text → Exec State Text
  unfolding return_text is_filled
  get_job_output job_id which = do
    token ← authenticate g c
    method ← λ s. (handle_method which, s)
    resp ← call g c method ((codes "token", token, none) ∷ (codes "jobid", job_id, none) ∷ [])
    if is_filled (return_text resp)
        then fetch (return_text resp)
        else raise (runtime_error (no_job_handle job_id which))
