-- ===== src/Http.antt =====
-- src/server/http.hh and http.cc: class HTTP (the parameters of a request or response and the text
-- of a response), class Session, and class Error (the response of an error type). jansson, which
-- reformats the body, is the parameter `reformat` of `serialize`.
pub mod Framing
pub mod Errors
use vyatta_rest.Prelude.{
  ℕ, zero, suc, ◌+◌, Bool, true, false, not, ◌||◌, ◌&&◌, List, [], ◌∷◌, ◌++◌, Option, none, some,
  if◌then◌else◌, length, ltb, ◌==◌,
}
use vyatta_rest.Text.{Str, codes, empty}
use vyatta_rest.Text.Decimal.{decimal}
use vyatta_rest.Rest.Keys.{
  Key, http_req_uri, http_req_authorization, http_req_cookie, http_req_query_string,
  http_req_method, http_req_content_length, http_req_vyatta_specification_version, http_req_accept,
  http_req_host, http_req_pragma, http_resp_debug, http_resp_code, http_resp_wwwauth,
  http_resp_content_type, http_resp_location, http_resp_cookie,
  http_resp_vyatta_specification_version, http_resp_cache_control, http_resp_content_disposition,
  http_body, key_index, max_body_size, AuthAccessType, auth_type_none,
}
use vyatta_rest.Json.{new_json, add_value, serialize as serialize_json}

-- `_param_coll` as a function of the key, and `_verbatim_body`.
pub record Http : Type 0 where
  pub params : Key → Option Str
  pub verbatim_body : Bool

abbrev pub new_http : Http
new_http = record { params = λ k. none; verbatim_body = false }

abbrev pub value_or_empty : Option Str → Str
value_or_empty none = []
value_or_empty (some v) = v

-- get(key)
abbrev pub get : Key → Http → Str
get k h = value_or_empty (h.params k)

abbrev pub same_key : Key → Key → Bool
same_key j k = key_index j == key_index k

-- set(key, value)
abbrev pub set : Key → Str → Http → Http
set key v h = record h { params = λ k. if same_key key k then some v else h.params k }

-- set(key, const char *): a null pointer is `none`
abbrev pub set_opt : Key → Option Str → Http → Http
set_opt key none h = h
set_opt key (some v) h = set key v h

-- append(key, value)
abbrev pub append : Key → Str → Http → Http
append key v h = set key (get key h ++ (codes "," ++ v)) h

-- erase(key)
abbrev pub erase : Key → Http → Http
erase key h = record h { params = λ k. if same_key key k then none else h.params k }

abbrev crlf : Str
crlf = codes "\r\n"

-- What `serialize` writes for a parameter other than the body.
unfoldable pub header_line : Key → Str → Str
header_line http_resp_debug v = codes "vyatta-debug: " ++ (v ++ crlf)
header_line http_resp_wwwauth v = codes "WWW-Authenticate: " ++ (v ++ crlf)
header_line http_resp_content_type v = codes "Content-Type: " ++ (v ++ crlf)
header_line http_resp_location v = codes "Location: " ++ (v ++ crlf)
header_line http_resp_cookie v = codes "Set-Cookie: " ++ (v ++ crlf)
header_line http_resp_cache_control v = codes "Cache-Control: " ++ (v ++ crlf)
header_line http_resp_content_disposition v = codes "Content-Disposition: " ++ (v ++ crlf)
header_line http_resp_vyatta_specification_version v =
    codes "Vyatta-Specification-Version: " ++ (v ++ crlf)
header_line _ v = []

-- The keys that the loop meets before HTTP_BODY, in the order of the map.
abbrev pub keys_before_body : List Key
keys_before_body =
    http_req_uri ∷ http_req_authorization ∷ http_req_cookie ∷ http_req_query_string
    ∷ http_req_method ∷ http_req_content_length ∷ http_req_vyatta_specification_version
    ∷ http_req_accept ∷ http_req_host ∷ http_req_pragma ∷ http_resp_debug ∷ http_resp_code
    ∷ http_resp_wwwauth ∷ http_resp_content_type ∷ http_resp_location ∷ http_resp_cookie
    ∷ http_resp_vyatta_specification_version ∷ http_resp_cache_control
    ∷ http_resp_content_disposition ∷ []

optional_line : Key → Option Str → Str
optional_line k none = []
optional_line k (some v) = header_line k v

unfoldable pub put_headers : Str → Http → List Key → Str
unfolding header_line optional_line
put_headers o h [] = o
put_headers o h (k ∷ ks) = put_headers (o ++ optional_line k (h.params k)) h ks

status_line : Option Str → Str
status_line none = []
status_line (some code) = codes "Status: " ++ (code ++ crlf)

is_oversize : Option Str → Bool
is_oversize none = false
is_oversize (some body) = ltb max_body_size (length body)

-- The status line, and the parameters once an oversize body is cleared.
unfoldable pub checked : Http → Str × Http
unfolding status_line is_oversize
checked h =
    if is_oversize (h.params http_body)
    then (codes "Status: 500\r\n", set http_body [] h)
    else (status_line (h.params http_resp_code), h)

reformatted : (Str → Option Str) → Str → Str
reformatted reformat body = elim (reformat body) [ none ↦ body | some out ↦ out ]

-- The body as it is sent.
unfoldable pub sent_body : (Str → Option Str) → Http → Str → Str
unfolding reformatted
sent_body reformat h body =
    if not (empty body) && not h.verbatim_body then reformatted reformat body else body

put_body : (Str → Option Str) → Http → Str → Option Str → Str
put_body reformat h o none = o ++ crlf
put_body reformat h o (some v) =
    let body = sent_body reformat h v in
    let o' = o ++ (codes "Content-Length: " ++ (decimal (length body) ++ crlf)) in
    if not (empty body) then o' ++ (crlf ++ body) else o' ++ crlf

-- serialize(): the text, and the object, whose oversize body is gone. `reformat` is jansson's
-- json_loads and json_dumps in compact form, `none` where either fails.
unfoldable pub serialize : (Str → Option Str) → Http → Str × Http
unfolding checked put_body put_headers sent_body
serialize reformat h =
    let (o, h') = checked h in
    (put_body reformat h' (put_headers o h' keys_before_body) (h'.params http_body), h')

pub data AccessLevel : Type 0 where
  vyattacfg vyattaop vyattaservice_user : AccessLevel

pub record Session : Type 0 where
  pub debug : Bool
  pub request : Http
  pub response : Http
  pub user : Str
  pub access_level : AccessLevel
  pub service_user : Bool
  pub auth_type : AuthAccessType
  pub session_key : Str

abbrev pub new_session : Bool → Session
new_session debug = record {
  debug = debug;
  request = new_http;
  response = new_http;
  user = [];
  access_level = vyattaop;
  service_user = false;
  auth_type = auth_type_none;
  session_key = [];
}

abbrev pub respond : Key → Str → Session → Session
respond k v s = record s { response = set k v s.response }

-- vyatta_debug(dbgstr)
unfoldable pub vyatta_debug : Str → Session → Session
vyatta_debug dbgstr s =
    if s.debug then record s { response = append http_resp_debug dbgstr s.response } else s

pub data ErrorType : Type 0 where
  ok created accepted validation_failure configuration_error appmode_script_error : ErrorType
  servicemode_script_error confmode_dup_desc_error authorization_failure : ErrorType
  command_not_found opmode_process_finished server_error server_command_error : ErrorType
  entitlement_error : ErrorType

-- http_response_error: the status code, the message and the error number of a type.
abbrev pub error_code : ErrorType → Str
error_code ok = codes "200"
error_code created = codes "201"
error_code accepted = codes "202"
error_code validation_failure = codes "400"
error_code configuration_error = codes "400"
error_code appmode_script_error = codes "400"
error_code servicemode_script_error = codes "400"
error_code confmode_dup_desc_error = codes "400"
error_code authorization_failure = codes "401"
error_code command_not_found = codes "404"
error_code opmode_process_finished = codes "410"
error_code server_error = codes "500"
error_code server_command_error = codes "500"
error_code entitlement_error = codes "503"

abbrev pub error_message : ErrorType → Str
error_message validation_failure = codes "Validation failure"
error_message servicemode_script_error = codes "Service command error"
error_message confmode_dup_desc_error = codes "Duplicate configuration description"
error_message authorization_failure = codes "Authorization failure"
error_message command_not_found = codes "Command not found"
error_message server_error = codes "Server error"
error_message entitlement_error = codes "Entitlement error"
error_message _ = []

abbrev pub error_number : ErrorType → Str
error_number validation_failure = codes "0"
error_number servicemode_script_error = codes "1"
error_number confmode_dup_desc_error = codes "1"
error_number authorization_failure = codes "0"
error_number command_not_found = codes "0"
error_number server_error = codes "0"
error_number entitlement_error = codes "2"
error_number _ = []

-- The body that the constructor of Error builds.
unfoldable pub error_body : ErrorType → Str → Str
error_body type msg =
    let message =
      if empty msg then error_message type else error_message type ++ (codes ": " ++ msg) in
    serialize_json
      (add_value (codes "error") (error_number type) (add_value (codes "message") message new_json))
      []

-- Error(session, type, msg)
unfoldable pub error_with : ErrorType → Str → Session → Session
error_with type msg s =
    let resp = error_body type msg in
    let s' = if not (empty resp) then respond http_body resp s else s in
    respond http_resp_code (error_code type) s'

-- ERROR(session, type)
abbrev pub error : ErrorType → Session → Session
error type s = error_with type [] s
