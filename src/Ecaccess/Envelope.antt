-- ===== src/Ecaccess/Envelope.antt =====
-- The SOAP envelopes of ecmwf_ecaccess_perl.py, as ElementTree writes them, and the fields that
-- `submit_job` writes itself. An envelope is the text that is then encoded in UTF-8.
pub mod Escape
pub mod Fields
pub mod Xml
use hpc_relay.Base.{
  ℕ, Bool, true, false, not, List, [], ◌∷◌, ◌++◌, map, Option, none, some, if◌then◌else◌, ◌==◌,
}
use hpc_relay.Text.{Text, codes}
use hpc_relay.Text.Decimal.{decimal}
use hpc_relay.Text.Layout.{dedent}
use hpc_relay.Text.Split.{join_with}

-- s.replace(c, new), for one character
unfoldable pub replace : ℕ → Text → Text → Text
replace c new [] = []
replace c new (d ∷ s) = (if d == c then new else d ∷ []) ++ replace c new s

-- `safe` of `_opt`; ElementTree escapes the text of an element in the same way.
unfoldable pub escape : Text → Text
unfolding replace
escape val =
    replace b'>' (codes "&gt;") (replace b'<' (codes "&lt;") (replace b'&' (codes "&amp;") val))

-- ElementTree's escapes in the value of an attribute.
unfoldable pub escape_attribute : Text → Text
unfolding replace escape
escape_attribute val = replace b'\t' (codes "&#09;") (
    replace b'\n' (codes "&#10;")
      (replace b'\r' (codes "&#13;") (replace b'"' (codes "&quot;") (escape val))))

-- A parameter: its name, its value and its `xsi:type`.
abbrev pub Param : Type 0
Param = Text × Text × Option Text

abbrev pub attributes : Text
attributes =
    codes " xmlns:soapenv=\"http://schemas.xmlsoap.org/soap/envelope/\""
    ++ (codes " xmlns:xsd=\"http://www.w3.org/2001/XMLSchema\""
        ++ (codes " xmlns:xsi=\"http://www.w3.org/2001/XMLSchema-instance\""
            ++ codes " xmlns:ns=\"http://service.client.ecmwf/xsd\""))

-- An element whose content is the text `inner`; an empty one closes itself.
unfoldable pub element : Text → Text → Text → Text
element tag attrs [] = b'<' ∷ (tag ++ (attrs ++ codes " />"))
element tag attrs (c ∷ inner) =
    b'<' ∷ (tag ++ (attrs ++ (b'>' ∷ (c ∷ inner ++ (codes "</" ++ (tag ++ codes ">"))))))

unfoldable pub type_attribute : Option Text → Text
unfolding escape_attribute
type_attribute none = []
type_attribute (some []) = []
type_attribute (some (c ∷ s)) = codes " xsi:type=\"" ++ (escape_attribute (c ∷ s) ++ codes "\"")

unfoldable pub param_element : Param → Text
unfolding element type_attribute escape
param_element (name, value, xsi_type) =
    element (codes "ns:" ++ name) (type_attribute xsi_type) (escape value)

unfoldable pub param_elements : List Param → Text
unfolding param_element
param_elements [] = []
param_elements (p ∷ ps) = param_element p ++ param_elements ps

-- `_soap_envelope`
unfoldable pub soap_envelope : Text → List Param → Text
unfolding element param_elements
soap_envelope method params =
    element (codes "soapenv:Envelope") attributes (
      element (codes "soapenv:Body") []
        (element (codes "ns:" ++ method) [] (param_elements params)))

-- `_soap_envelope_raw_inner`
unfoldable pub soap_envelope_raw_inner : Text → Text → Text → Text
unfolding dedent join_with
soap_envelope_raw_inner method token_xml inner_xml = dedent (
    join_with (b'\n' ∷ []) (
      codes "        <soapenv:Envelope"
      ∷ codes "            xmlns:soapenv=\"http://schemas.xmlsoap.org/soap/envelope/\""
      ∷ codes "            xmlns:xsd=\"http://www.w3.org/2001/XMLSchema\""
      ∷ codes "            xmlns:xsi=\"http://www.w3.org/2001/XMLSchema-instance\""
      ∷ codes "            xmlns:ns=\"http://service.client.ecmwf/xsd\">"
      ∷ codes "          <soapenv:Body>"
      ∷ (codes "            <ns:" ++ (method ++ codes ">"))
      ∷ (codes "              " ++ token_xml)
      ∷ (codes "              " ++ inner_xml)
      ∷ (codes "            </ns:" ++ (method ++ codes ">"))
      ∷ codes "          </soapenv:Body>"
      ∷ codes "        </soapenv:Envelope>"
      ∷ []))

-- `_bool`
unfoldable pub bool_text : Bool → Text
bool_text v = if v then codes "true" else codes "false"

-- `_opt`
unfoldable pub opt : Text → Option Text → Text
unfolding escape
opt tag none = codes "<ns:" ++ (tag ++ codes " xsi:nil=\"true\"/>")
opt tag (some val) =
    codes "<ns:" ++ (tag ++ (b'>' ∷ (escape val ++ (codes "</ns:" ++ (tag ++ codes ">")))))

-- <ns:{tag} xsi:type="xsd:boolean">{v}</ns:{tag}>
unfoldable pub flag_field : Text → Bool → Text
unfolding bool_text
flag_field tag v =
    codes "<ns:"
    ++ (tag
        ++ (codes " xsi:type=\"xsd:boolean\">"
            ++ (bool_text v ++ (codes "</ns:" ++ (tag ++ codes ">")))))

-- <ns:{tag}>{n}</ns:{tag}>
unfoldable pub plain_field : Text → Text → Text
plain_field tag s = codes "<ns:" ++ (tag ++ (b'>' ∷ (s ++ (codes "</ns:" ++ (tag ++ codes ">")))))

-- The arguments of `submit_job`.
pub record SubmitArgs : Type 0 where
  pub script_path : Text
  pub queue : Option Text
  pub job_name : Option Text
  pub distant : Bool
  pub event_ids : Option Text
  pub scheduled_date : Option Text
  pub no_directives : Bool
  pub stderr_to_stdout : Bool
  pub life_time : ℕ
  pub retry_count : ℕ
  pub retry_frequency : ℕ

-- `request_fields`
unfoldable pub request_fields : SubmitArgs → Text → Text → List Text
unfolding opt flag_field plain_field decimal
request_fields args name temp_file =
    opt (codes "scheduledDate") args.scheduled_date
    ∷ opt (codes "userMailAddress") none
    ∷ flag_field (codes "sendMailOnStart") false
    ∷ flag_field (codes "sendMailOnSuccess") false
    ∷ flag_field (codes "sendMailOnFailure") false
    ∷ flag_field (codes "sendMailOnRetry") false
    ∷ flag_field (codes "containsDirectives") (not args.no_directives)
    ∷ opt (codes "queueName") args.queue
    ∷ opt (codes "name") (some name)
    ∷ opt (codes "transferGatewayName") none
    ∷ opt (codes "transferRemoteLocation") none
    ∷ flag_field (codes "transferOutputFile") false
    ∷ flag_field (codes "transferErrorFile") false
    ∷ flag_field (codes "transferInputFile") false
    ∷ flag_field (codes "transferKeepInSpool") false
    ∷ flag_field (codes "renewSubscription") true
    ∷ flag_field (codes "errorToOutput") args.stderr_to_stdout
    ∷ opt (codes "manPageContent") none
    ∷ plain_field (codes "lifeTime") (decimal args.life_time)
    ∷ plain_field (codes "retryCount") (decimal args.retry_count)
    ∷ plain_field (codes "retryFrequency") (decimal args.retry_frequency)
    ∷ opt (codes "eventIds") args.event_ids
    ∷ plain_field (codes "inputFile") temp_file
    ∷ []

-- The envelope that `submit_job` sends.
unfoldable pub submit_envelope : SubmitArgs → Text → Text → Text → Text
unfolding plain_field request_fields soap_envelope_raw_inner join_with
submit_envelope args token name temp_file =
    soap_envelope_raw_inner (codes "submitJob") (plain_field (codes "token") token) (
      codes "<ns:request>\n"
      ++ (join_with (b'\n' ∷ [])
            (map (λ f. codes "        " ++ f) (request_fields args name temp_file))
          ++ codes "\n      </ns:request>"))
