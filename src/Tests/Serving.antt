-- ===== src/Tests/Serving.antt =====
-- Inputs for the results on the server's loop and its modes.
use vyatta_rest.Prelude.{
  ◌++◌, arith, ℕ, suc, ◌≡◌, ◌≢◌, ◌≤◌, refl, true, false, List, [], ◌∷◌, none, some, if◌then◌else◌,
}
use vyatta_rest.Text.{Str, codes, str_eq, starts_with, find, find_from, contains}
use vyatta_rest.Outcome.{done, no_fuel}
use vyatta_rest.Json.{Json}
use vyatta_rest.Http.{
  set, new_http, Session, new_session, error, vyatta_debug, authorization_failure,
  vyattaservice_user,
}
use vyatta_rest.Http.Errors.{error_lem}
use vyatta_rest.Mode.{System}
use vyatta_rest.Mode.Child.{
  Shell, Turn, bytes, again, Printing, ended, waits, prints, system_out, system_out-Printing,
}
use vyatta_rest.Mode.App.{is_none}
use vyatta_rest.Mode.Service.{Tree, index_loop}
use vyatta_rest.Mode.Permissions.{Daemons}
use vyatta_rest.Mode.Op.{OpHost, sent, process as op_process}
use vyatta_rest.Mode.Op.Started.{fresh, post_starts}
use vyatta_rest.Rest.Cli.{translate_rest_to_cli}
use vyatta_rest.Rest.Keys.{
  auth_type_basic, http_req_uri, http_req_method, http_resp_code, http_resp_location,
}
use vyatta_rest.Text.Map.{lookup}
use vyatta_rest.Chunker.Message.{command_message}
use vyatta_rest.Chunker.Manager as Daemon
use vyatta_rest.Chunker.Manager.{Manager}
use vyatta_rest.Tests.Daemon.{token, peer, host as daemon_host, Plain-token, Plain-user}
use vyatta_rest.Tests.Words.{Lacks-has}
use vyatta_rest.Chunker.Message.Wire.{Plain}
use vyatta_rest.Mode.Index.{listed, template, index_loop_lem}
use vyatta_rest.Server.{
  Modes, Handler, Request, dispatch, serve, validate, parse, parse_params, opened,
}
use vyatta_rest.Auth.Basic.{handle, authorized}
use vyatta_rest.Auth.Accounts.{in_group, grant_groups}
use vyatta_rest.Server.Guards.{Refuses, AllRefuse, serve_changes}
use vyatta_rest.Server.Routing.{dispatch_separates}
use vyatta_rest.Tests.Logins.{checks, host, files, free}

-- A mode that counts the requests that it accepts.
abbrev counting : Handler ℕ
counting s w =
    if is_none s.auth_type then done (error authorization_failure s, w) else done (s, suc w)

counting-Refuses : Refuses counting
counting-Refuses s w h =
    (error authorization_failure s, rw h, (error_lem authorization_failure s).0)

abbrev modes : Modes ℕ
modes = record {
  app_mode = counting;
  op_mode = counting;
  conf_mode = counting;
  perms = counting;
  service_mode = counting;
}

all_refuse : AllRefuse modes
all_refuse =
    (counting-Refuses, counting-Refuses, counting-Refuses, counting-Refuses, counting-Refuses)

abbrev request : Request
request = record {
  getenv = λ name.
      if str_eq name (codes "REQUEST_URI")
      then some (codes "/rest/app/x")
      else if str_eq name (codes "HTTP_AUTHORIZATION")
      then some (codes "Basic eA==")
      else none;
  stdin = [];
}

served : (s' : Session) × (serve modes checks host free false request 0 files ≡ done (s', 1, files))
unfolding serve parse_params str_eq vyatta_debug handle starts_with authorized find contains
    in_group grant_groups
served = (_, refl)

serve_changes_example :
    (s1 : Session) × (validate checks host free
        (vyatta_debug
          (codes "D")
          (vyatta_debug (codes "C") (vyatta_debug (codes "B") (parse request (opened false)).1)))
        files
      ≡ done (true, s1, files))
    × (dispatch modes (vyatta_debug (codes "E") s1) 0 ≡ done (served.0, 1))
serve_changes_example =
    serve_changes modes all_refuse checks host free false request 0 files {s' = served.0} {w' = 1}
      {f' = files} served.1 (λ e. cc)

abbrev system : System ℕ
system = record {
  put_input = λ body w. (true, suc w);
  system_out = λ cmd w. (0, codes "ok", suc w);
  unlink_input = λ w. suc w;
  append_input = λ line w. suc w;
}

abbrev tree : Tree
tree = record {
  children = some (codes "dhcp" ∷ []);
  help = λ path.
      if str_eq path (codes "/opt/vyatta/share/vyatta-service/templates/dhcp")
      then some (codes "DHCP")
      else none;
  stat = λ path. true;
}

abbrev daemons : Daemons
daemons = record { conf_perms = none; op_perms = none; dump = λ conf op. codes "{}" }

-- A daemon that takes every message.
abbrev op_host : OpHost
op_host = record {
  peer = λ k. peer;
  token = token;
  unescape = λ t. t;
  expands = λ path. false;
  node = λ path admin. none;
}

abbrev posting : Session
posting = record (new_session false) {
  request =
      set http_req_uri (codes "/rest/op/show/version")
        (set http_req_method (codes "POST") new_http);
  user = codes "vyatta";
  auth_type = auth_type_basic;
}

abbrev idle : Manager
idle = record { procs = []; chunk_size = 4 }

abbrev statement : Str
statement = codes "show 'version'"

Plain-statement : Plain statement
Plain-statement = (Lacks-has b'<' statement refl, omega arith)

translated : translate_rest_to_cli (λ t. t) (codes "show/version") ≡ done statement
unfolding translate_rest_to_cli find_from find starts_with
translated = refl

post_starts_example :
    (s' : Session) × (op_process op_host posting
      ≡ done (s', sent (command_message token statement (codes "vyatta")) ∷ []))
    × (s'.response.params http_resp_code ≡ some (codes "201"))
    × (s'.response.params http_resp_location ≡ some (codes "rest/op/" ++ token))
    × (lookup token
          (Daemon.process daemon_host
            (command_message token statement (codes "vyatta"))
            idle).0.procs
        ≡ some (fresh daemon_host token statement (codes "vyatta")))
unfolding lookup
post_starts_example =
    post_starts op_host posting (codes "show/version") statement daemon_host idle refl refl refl
      translated refl refl (omega arith) refl (Plain-token, Plain-statement, Plain-user) (λ e. cc)
      (λ e. cc) refl

abbrev service_only : Modes ℕ
service_only = record {
  app_mode = λ s w. no_fuel;
  op_mode = λ s w. no_fuel;
  conf_mode = λ s w. no_fuel;
  perms = λ s w. no_fuel;
  service_mode = counting;
}

abbrev service_session : Session
service_session = record (new_session false) { access_level = vyattaservice_user }

dispatch_separates_example :
    (service_session.access_level ≡ vyattaservice_user
      → modes.service_mode ≡ service_only.service_mode
      → dispatch modes service_session 0 ≡ dispatch service_only service_session 0)
    × (service_session.access_level ≢ vyattaservice_user
        → modes.app_mode ≡ service_only.app_mode
        → modes.op_mode ≡ service_only.op_mode
        → modes.conf_mode ≡ service_only.conf_mode
        → modes.perms ≡ service_only.perms
        → dispatch modes service_session 0 ≡ dispatch service_only service_session 0)
dispatch_separates_example = dispatch_separates modes service_only service_session 0

dhcp_template : (help : Str) × (template tree (codes "dhcp") ≡ some help)
unfolding str_eq
dhcp_template = (codes "DHCP", refl)

index_loop_lem_example :
    ((fuel : ℕ) (j : Json)
      → 2 ≤ fuel
      → index_loop tree fuel (codes "dhcp" ∷ []) j
        ≡ done (listed tree (codes "dhcp" ∷ []) (dhcp_template, tt) j))
    × ((name : Str) (after : List Str)
        → template tree name ≡ none
        → (fuel : ℕ) (j : Json) → index_loop tree fuel (codes "dhcp" ∷ name ∷ after) j ≡ no_fuel)
index_loop_lem_example = index_loop_lem tree (codes "dhcp" ∷ []) (dhcp_template, tt)

-- A shell that prints "up", in two reads, and exits with 3.
abbrev turns : List Turn
turns = bytes (codes "u") ∷ again ∷ bytes (codes "p") ∷ bytes [] ∷ []

abbrev shell : Shell
shell = record { pipe = true; turns = λ calls. turns; wait = λ calls. some 3 }

up : Printing turns (codes "up")
up = prints b'u' [] (waits (prints b'p' [] ended))

system_out-Printing_example :
    system_out shell (some (codes "uptime")) (codes "old") ≡ done (some 3, codes "up")
system_out-Printing_example = system_out-Printing shell (codes "uptime") (codes "old") refl up refl
