-- ===== src/Rest/Keys.antt =====
-- The enumerations and string constants of src/server/common.hh and common.cc.
use vyatta_rest.Prelude.{ℕ}
use vyatta_rest.Text.{Str, codes}

-- Rest::KEY, in the order of the enumeration, which is the order of HTTP's std::map.
pub data Key : Type 0 where
  http_req_uri http_req_authorization http_req_cookie http_req_query_string http_req_method : Key
  http_req_content_length http_req_vyatta_specification_version http_req_accept : Key
  http_req_host http_req_pragma http_resp_debug http_resp_code http_resp_wwwauth : Key
  http_resp_content_type http_resp_location http_resp_cookie : Key
  http_resp_vyatta_specification_version http_resp_cache_control : Key
  http_resp_content_disposition http_body : Key

-- The value of the enumerator.
abbrev pub key_index : Key → ℕ
key_index http_req_uri = 0
key_index http_req_authorization = 1
key_index http_req_cookie = 2
key_index http_req_query_string = 3
key_index http_req_method = 4
key_index http_req_content_length = 5
key_index http_req_vyatta_specification_version = 6
key_index http_req_accept = 7
key_index http_req_host = 8
key_index http_req_pragma = 9
key_index http_resp_debug = 10
key_index http_resp_code = 11
key_index http_resp_wwwauth = 12
key_index http_resp_content_type = 13
key_index http_resp_location = 14
key_index http_resp_cookie = 15
key_index http_resp_vyatta_specification_version = 16
key_index http_resp_cache_control = 17
key_index http_resp_content_disposition = 18
key_index http_body = 19

pub data AuthAccessType : Type 0 where
  auth_type_none auth_type_basic auth_type_vyatta_session : AuthAccessType

pub data NodeType : Type 0 where
  none text ipv4 ipv4net ipv6 ipv6net u32 bool macaddr : NodeType

abbrev pub max_body_size : ℕ
max_body_size = 33554432

abbrev pub rest_server_version : Str
rest_server_version = codes "0.3"

abbrev pub json_input : Str
json_input = codes "/tmp/json_input"

abbrev pub conf_req_root : Str
conf_req_root = codes "/rest/conf"

abbrev pub op_req_root : Str
op_req_root = codes "/rest/op"

abbrev pub app_req_root : Str
app_req_root = codes "/rest/app"

abbrev pub perm_req_root : Str
perm_req_root = codes "/rest/perm"

abbrev pub service_req_root : Str
service_req_root = codes "/rest/service"

abbrev pub auth_basic : Str
auth_basic = codes "Basic"

abbrev pub auth_vyatta_session : Str
auth_vyatta_session = codes "Vyatta-Session"

abbrev pub auth_vyatta_path_loc : Str
auth_vyatta_path_loc = codes "vyatta2_path_loc"

abbrev pub pragma_no_vyatta_session_update : Str
pragma_no_vyatta_session_update = codes "no-vyatta-session-update"

abbrev pub pragma_service_user : Str
pragma_service_user = codes "vyatta-service-user"

abbrev pub config_tmp_dir : Str
config_tmp_dir = codes "/tmp/"

abbrev pub local_changes_only : Str
local_changes_only = codes "/rw/"

abbrev pub local_config_dir : Str
local_config_dir = codes "/u/"

abbrev pub conf_command_dir : Str
conf_command_dir = codes "/opt/vyatta/share/vyatta-cfg/templates"

abbrev pub chunker_read_size : ℕ
chunker_read_size = 98304

abbrev pub service_command_dir : Str
service_command_dir = codes "/opt/vyatta/share/vyatta-service/templates"

abbrev pub vyatta_modify_file : Str
vyatta_modify_file = codes "/tmp/.vyattamodify_"

abbrev pub chunker_resp_tok_dir : Str
chunker_resp_tok_dir = codes "/opt/vyatta/tmp/webgui2/"

abbrev pub chunker_resp_pid : Str
chunker_resp_pid = codes "/tmp"

abbrev pub chunker_socket : Str
chunker_socket = codes "/tmp/browser_pager2"

abbrev pub chunker_resp_tok_file : Str
chunker_resp_tok_file = codes "/opt/vyatta/tmp/webgui2/multi_"

-- Rest::g_type_str, indexed by the node type
unfoldable pub type_str : NodeType → Str
type_str none = codes "none"
type_str text = codes "text"
type_str ipv4 = codes "ipv4"
type_str ipv4net = codes "ipv4net"
type_str ipv6 = codes "ipv6"
type_str ipv6net = codes "ipv6net"
type_str u32 = codes "u32"
type_str bool = codes "bool"
type_str macaddr = codes "macaddr"
