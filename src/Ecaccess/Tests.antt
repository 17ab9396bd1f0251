-- ===== src/Ecaccess/Tests.antt =====
-- A gateway that answers, and the theorems at it.
use hpc_relay.Base.{
  ◌≡◌, refl, inr, true, List, [], ◌∷◌, ◌++◌, none, some, arith, if◌then◌else◌, ltb, length, pos,
}
use hpc_relay.Ecaccess.Client.{
  is_filled, judge_reply, Call, post, upload, download, Response, Gateway, State, EcaccessClient,
  release_token, authenticate, upload_data, close_handle, call_raw, call, log_in, download_data,
  token_or_log_in, read_reply, release_held,
}
use hpc_relay.Ecaccess.Envelope.Fields.{heads}
use hpc_relay.Ecaccess.Envelope.Xml.{parse_values}
use hpc_relay.Ecaccess.Envelope.{Param, param_elements, soap_envelope, soap_envelope_raw_inner}
use hpc_relay.Ecaccess.Jobs.{
  first_row, submit_with, get_job_output, submit_job, send_script, send_read, send_data,
  send_content, list_jobs, handle_method,
}
use hpc_relay.Ecaccess.Main.{Subcommand, main}
use hpc_relay.Ecaccess.MainEnds.{MainEnd, main-MainEnd}
use hpc_relay.Ecaccess.Output.{OutputEnd, downloads, get_job_output-OutputEnd}
use hpc_relay.Ecaccess.Encode.{percent_quote, b64encode}
use hpc_relay.Ecaccess.Poll
use hpc_relay.Ecaccess.Poll.{Settles, runs, ended, polls, get_job, wait_for_terminal-Settles}
use hpc_relay.Ecaccess.Release.{RunEnd, run_client-RunEnd}
use hpc_relay.Ecaccess.Runner.{
  status_in, is_terminal, run_script, attend, poll_once, look, collect, run_client,
  wait_for_terminal, plain_args,
}
use hpc_relay.Ecaccess.Token.{Start, logins}
use hpc_relay.Ecaccess.Trace.{SubmitEnd, submit_with-SubmitEnd}
use hpc_relay.Ecaccess.Xml.{
  elem_fields, get_returns, elem_field, Element, node, nil, cons, parse_fault, find_response,
}
use hpc_relay.Exec.{Outcome, returns, raises}
use hpc_relay.Result.{foreign, ok}
use hpc_relay.Text.{Text, codes}
use hpc_relay.Text.Split.{partition}

-- A reply `method=value` is read as an element with the value in its `return`; any other is a fault.
abbrev reply : Text → Text → Element
reply method value = node (codes "Envelope") none (
    cons
      (node (codes "{http://service.client.ecmwf/xsd}" ++ (method ++ codes "Response")) none (
        cons
          (node (codes "return") (some value) (cons (node (codes "status") (some value) nil) nil))
          nil))
      nil)

abbrev fault : Text → Element
fault why = node (codes "Envelope") none (
    cons
      (node (codes "{http://schemas.xmlsoap.org/soap/envelope/}Fault") none
        (cons (node (codes "faultstring") (some why) nil) nil))
      nil)

abbrev read : Text → Outcome Element
read content = elim (partition b'=' content) [
  | none ↦ returns (fault content)
  | some (method, value) ↦ returns (reply method value)
]

abbrev answer : Text → Call → Outcome Response
answer value (post url method envelope) =
    returns (record { status_code = 200; content = method ++ (b'=' ∷ value) })
answer value (download url) = returns (record { status_code = 200; content = value })
answer value (upload url content) = returns (record { status_code = 200; content = [] })
answer value _ = raises (foreign 0)

abbrev last_call : (Call → Outcome Response) → List Call → Outcome Response
last_call f [] = raises (foreign 1)
last_call f (k ∷ []) = f k
last_call f (k ∷ l ∷ log) = last_call f (l ∷ log)

abbrev gateway : Gateway
gateway = record {
  flag = λ log. returns true;
  bytes = λ log. returns (codes "/tmp/x.sh");
  response = last_call (answer (codes "DONE"));
  from_string = read;
}

abbrev client : EcaccessClient
client = record {
  cert_path = record { root = codes "/"; parts = codes "cert" ∷ [] };
  https_host = codes "gw";
  http_host = codes "gw";
}

abbrev fresh : State
fresh = record { token = none; log = [] }

abbrev logged_in : State
logged_in = record { token = some (codes "T"); log = [] }

abbrev two_params : List Param
two_params =
    (codes "token", codes "<T>", none) ∷ (codes "erase", codes "", some (codes "xsd:boolean")) ∷ []

-- A line end of Windows comes back as LF, and a control character is refused.
crlf_normalised :
    parse_values
      (heads ((codes "a", [], none) ∷ []))
      (param_elements ((codes "a", codes "x\r\ny", none) ∷ []))
    ≡ some (codes "x\ny" ∷ [], [])
unfolding parse_values param_elements hpc_relay.Ecaccess.Envelope.Fields.read_values
    hpc_relay.Ecaccess.Envelope.Escape.read_content
crlf_normalised = refl

control_refused :
    parse_values
      (heads ((codes "a", [], none) ∷ []))
      (param_elements ((codes "a", 1 ∷ [], none) ∷ []))
    ≡ none
unfolding parse_values param_elements
control_refused = refl

fault_found : parse_fault (fault (codes "no")) ≡ some (codes "no")
unfolding parse_fault
fault_found = refl

fresh-Start : Start 0 fresh
unfolding logins
fresh-Start = record { once = omega arith; held_or_fresh = inr (omega arith) }

run_client-RunEnd_example : RunEnd 0 (run_client gateway client (λ t. t) 3 (codes "hostname") fresh)
run_client-RunEnd_example =
    run_client-RunEnd gateway client (λ t. t) 3 (codes "hostname") fresh fresh-Start

main-MainEnd_example : MainEnd 0 (main gateway client (λ k. true) Subcommand.ops fresh)
main-MainEnd_example = main-MainEnd gateway client (λ k. true) Subcommand.ops fresh fresh-Start

submit_with-SubmitEnd_example :
    SubmitEnd gateway client (plain_args (codes "/tmp/x.sh")) (codes "T") (codes "tmp1") [] (
      submit_with gateway client
        (plain_args (codes "/tmp/x.sh"))
        (codes "T")
        (codes "tmp1")
        logged_in)
submit_with-SubmitEnd_example =
    submit_with-SubmitEnd gateway client (plain_args (codes "/tmp/x.sh")) (codes "T") (codes "tmp1")
      logged_in

get_job_output-OutputEnd_example :
    OutputEnd gateway client
      (downloads (logged_in).log)
      (get_job_output gateway client (codes "7") (codes "output") logged_in)
get_job_output-OutputEnd_example =
    get_job_output-OutputEnd gateway client (codes "7") (codes "output") logged_in

-- A gateway that reports EXEC in the first listing and DONE later.
abbrev slow : Gateway
slow = record gateway {
  response =
      λ log. last_call (answer (if ltb (length log) 2 then codes "EXEC" else codes "DONE")) log;
}

slow-Settles : Settles slow client (codes "T") (codes "7") (codes "DONE") 1 []
unfolding Poll.shows partition judge_reply parse_fault find_response first_row get_returns
    elem_fields is_terminal status_in elem_field
slow-Settles =
    runs 0 [] (record { fields = _; event_ids = [] }) [] true refl refl refl
      (ended _ (record { fields = _; event_ids = [] }) [] refl refl refl)

wait_for_terminal-Settles_example : wait_for_terminal slow client 5 (codes "7") logged_in ≡ (
  returns (some (codes "DONE")),
  record logged_in {
    log =
        polls slow client (codes "T") (codes "7") 1
        ++ get_job slow client (codes "T") (codes "7") ∷ [];
  },
)
unfolding is_filled
wait_for_terminal-Settles_example =
    wait_for_terminal-Settles slow client (codes "T") (codes "7") refl refl 5 1 (codes "DONE") []
      logged_in refl refl (omega arith) slow-Settles

run_done :
    (run_client gateway client (λ t. t) 3 (codes "hostname") fresh).0
    ≡ returns
        (some (ok (record { stdout = codes "DONE"; stderr = codes "DONE"; return_code = pos 0 })))
unfolding run_client run_script attend submit_job authenticate partition parse_fault find_response
    submit_with send_script send_read send_data send_content upload_data close_handle call_raw call
    log_in wait_for_terminal poll_once look list_jobs collect get_job_output handle_method
    download_data release_token token_or_log_in read_reply release_held elem_field
run_done = refl

small_envelope :
    soap_envelope (codes "getJob") ((codes "jobid", codes "a&b", none) ∷ [])
    ≡ codes
        "<soapenv:Envelope xmlns:soapenv=\"http://schemas.xmlsoap.org/soap/envelope/\" xmlns:xsd=\"http://www.w3.org/2001/XMLSchema\" xmlns:xsi=\"http://www.w3.org/2001/XMLSchema-instance\" xmlns:ns=\"http://service.client.ecmwf/xsd\"><soapenv:Body><ns:getJob><ns:jobid>a&amp;b</ns:jobid></ns:getJob></soapenv:Body></soapenv:Envelope>"
unfolding soap_envelope
small_envelope = refl

dedent_inner :
    soap_envelope_raw_inner (codes "m") (codes "T") (codes "a\n      b")
    ≡ codes
        "  <soapenv:Envelope\n      xmlns:soapenv=\"http://schemas.xmlsoap.org/soap/envelope/\"\n      xmlns:xsd=\"http://www.w3.org/2001/XMLSchema\"\n      xmlns:xsi=\"http://www.w3.org/2001/XMLSchema-instance\"\n      xmlns:ns=\"http://service.client.ecmwf/xsd\">\n    <soapenv:Body>\n      <ns:m>\n        T\n        a\nb\n      </ns:m>\n    </soapenv:Body>\n  </soapenv:Envelope>"
unfolding soap_envelope_raw_inner
dedent_inner = refl

quoted : percent_quote (codes "a b/é") ≡ codes "a%20b/%C3%A9"
unfolding percent_quote
quoted = refl

encoded : b64encode (codes "hello") ≡ codes "aGVsbG8="
unfolding b64encode
encoded = refl
