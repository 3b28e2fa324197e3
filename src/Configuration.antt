-- ===== src/Configuration.antt =====
-- The data of src/server/configuration.hh: what a node of the configuration tree is to its readers,
-- and what the daemons configd and opd tell of a path.
pub mod Entries
pub mod Template
pub mod Read
pub mod Operational
pub mod States
pub mod Children
use vyatta_rest.Prelude.{ℕ, Bool, false, List, [], Option}
use vyatta_rest.Text.{Str}
use vyatta_rest.Rest.Keys as Keys

-- NodeParams::CONF_STATE
pub data ConfState : Type 0 where
  k_none k_active k_set k_delete : ConfState

-- NodeParams::DISABLE_STATE
pub data DisableState : Type 0 where
  k_enable k_enable_local k_disable k_disable_local : DisableState

pub record NodeParams : Type 0 where
  pub name : Str
  pub state : ConfState
  pub is_changed : Str
  pub disabled_state : DisableState

abbrev pub new_node_params : NodeParams
new_node_params = record { name = []; state = k_none; is_changed = []; disabled_state = k_enable }

-- The kinds of node that the configuration daemon tells apart.
pub data NodeKind : Type 0 where
  leaf multi tag container other : NodeKind

-- TemplateParams, but for `_conf_mode`, which nothing sets or reads. A set is the list of its
-- elements in order. The constructor leaves `node_type` unset: `unset` stands for what it holds.
pub record TemplateParams : Type 0 where
  pub is_multi : Bool
  pub multi_limit : ℕ
  pub end : Bool
  pub action : Bool
  pub type1 : Keys.NodeType
  pub type2 : Keys.NodeType
  pub help : Str
  pub comp_help : Str
  pub val_help : List Str
  pub mandatory : Bool
  pub secret : Bool
  pub default : Str
  pub enum : List Str
  pub enumeration_cmd : Str
  pub allowed_cmd : Str
  pub allowed : Str
  pub node_type : NodeKind
  pub node_data : NodeParams
  pub children_coll : List NodeParams

abbrev pub new_template_params : NodeKind → TemplateParams
new_template_params unset = record {
  is_multi = false;
  multi_limit = 0;
  end = false;
  action = false;
  type1 = Keys.none;
  type2 = Keys.none;
  help = [];
  comp_help = [];
  val_help = [];
  mandatory = false;
  secret = false;
  default = [];
  enum = [];
  enumeration_cmd = [];
  allowed_cmd = [];
  allowed = [];
  node_type = unset;
  node_data = new_node_params;
  children_coll = [];
}

-- configd_node_get_status of the candidate tree
pub data Status : Type 0 where
  deleted changed added unchanged failed : Status

-- What configd_node_exists returns: 0, 1 or -1.
pub data Exists : Type 0 where
  absent present unknown : Exists

-- What configd tells of a path in the session that was set; a vector or a map is the list of its
-- entries, and `none` is a null map. `url_escape` is that of curl_easy_escape, with "" for a null
-- pointer.
pub record Configd : Type 0 where
  pub tmpl_validate_path : Str → Bool
  pub tmpl_get : Str → Option (List Str)
  pub tmpl_get_children : Str → List Str
  pub tmpl_get_allowed : Str → List Str
  pub node_get_type : Str → NodeKind
  pub node_get_status : Str → Status
  pub exists_running : Str → Exists
  pub exists_candidate : Str → Exists
  pub get_running : Str → List Str
  pub get_candidate : Str → List Str
  pub url_escape : Str → Str

-- What opd tells of a path.
pub record Opd : Type 0 where
  pub tmpl : Str → Option (List Str)
  pub allowed : Str → List Str
  pub children : Str → List Str
