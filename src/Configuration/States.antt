-- ===== src/Configuration/States.antt =====
-- The state of a node and of its children in src/server/configuration.cc: `get_node_params`,
-- `parse_value_and_state` and `get_configured_node`.
use vyatta_rest.Prelude.{
  ℕ, ◌+◌, Bool, true, false, List, [], ◌∷◌, ◌++◌, Option, none, some, if◌then◌else◌, drop,
}
use vyatta_rest.Text.{Str, codes, empty, rfind}
use vyatta_rest.Text.Decimal.{decimal}
use vyatta_rest.Text.Hex.{strtoull_hex}
use vyatta_rest.Text.Map.{StrMap, lookup, assign}
use vyatta_rest.Outcome.{Outcome, done, ◌>>=◌}
use vyatta_rest.Configuration.{
  Configd, TemplateParams, NodeParams, new_node_params, new_template_params, ConfState, k_none,
  k_active, k_set, k_delete, k_enable, NodeKind, container, other, Status, deleted, changed, added,
  unchanged, failed, Exists, absent, present, unknown,
}
use vyatta_rest.Configuration.Template.{get_template_node}

last_element : Str → Option ℕ → Str
last_element cpath none = cpath
last_element cpath (some pos) = drop (pos + 1) cpath

-- `if (configd_node_exists(…))`, which -1 passes, and `configd_node_exists(…) == 1`
abbrev is_nonzero : Exists → Bool
is_nonzero absent = false
is_nonzero present = true
is_nonzero unknown = true

abbrev is_one : Exists → Bool
is_one absent = false
is_one present = true
is_one unknown = false

-- The state of a node by its status, and whether it has changed.
unfoldable pub state_of : Status → Exists → ConfState × Str
state_of deleted running = (k_delete, codes "true")
state_of changed running = (k_active, codes "true")
state_of added running = (k_set, codes "true")
state_of unchanged running = (if is_nonzero running then k_active else k_none, codes "false")
state_of failed running = (k_none, codes "false")

-- get_node_params(cpath, node)
unfoldable pub get_node_params : Configd → Str → NodeParams → NodeParams
unfolding last_element state_of
get_node_params c cpath node =
    let (s, is_changed) = state_of (c.node_get_status cpath) (c.exists_running cpath) in
    record node { name = last_element cpath (rfind b'/' cpath); state = s; is_changed = is_changed }

-- The path of a child.
unfoldable pub child_path : Str → Str → Str
child_path cpath child = if empty cpath then child else cpath ++ (codes "/" ++ child)

-- insert of std::map, which keeps what is there
unfoldable pub insert_state : Str → ConfState → StrMap ConfState → StrMap ConfState
insert_state child s coll = elim (lookup child coll) [
  | none ↦ assign child s coll
  | some old ↦ coll
]

-- `np`, `value_coll` and `state_coll`
pub record Children : Type 0 where
  pub np : NodeParams
  pub value_coll : List Str
  pub state_coll : StrMap ConfState

-- One value of a leaf, multi or tag node.
unfoldable pub add_value : Configd → Str → Str → Children → Children
unfolding get_node_params child_path insert_state
add_value c cpath child ch =
    let np' = get_node_params c (child_path cpath (c.url_escape child)) ch.np in
    record {
      np = np';
      value_coll = ch.value_coll ++ child ∷ [];
      state_coll = insert_state child np'.state ch.state_coll;
    }

unfoldable pub add_running : Configd → Str → List Str → Children → Children
unfolding add_value
add_running c cpath [] ch = ch
add_running c cpath (child ∷ children) ch =
    add_running c cpath children (add_value c cpath child ch)

-- A value of the candidate tree that is already known is passed over.
unfoldable pub add_unknown : Configd → Str → Str → Children → Option ConfState → Children
unfolding add_value
add_unknown c cpath child ch none = add_value c cpath child ch
add_unknown c cpath child ch (some s) = ch

unfoldable pub add_candidate : Configd → Str → List Str → Children → Children
unfolding add_unknown
add_candidate c cpath [] ch = ch
add_candidate c cpath (child ∷ children) ch =
    add_candidate c cpath children (add_unknown c cpath child ch (lookup child ch.state_coll))

-- The state of a child of a container by the trees that it is in.
unfoldable pub container_state : Exists → Exists → ConfState
container_state candidate running =
    if is_one running
    then (if is_one candidate then k_active else k_delete)
    else if is_one candidate
    then k_set
    else k_none

unfoldable pub add_container : Configd → Str → List Str → Children → Children
unfolding container_state child_path insert_state
add_container c cpath [] ch = ch
add_container c cpath (child ∷ children) ch =
    let path = child_path cpath child in
    add_container c cpath children (record ch {
      value_coll = ch.value_coll ++ child ∷ [];
      state_coll =
          insert_state child (container_state (c.exists_candidate path) (c.exists_running path))
            ch.state_coll;
    })

-- The children by the type of the node.
unfoldable pub collect : Configd → Str → NodeKind → Children → Children
unfolding add_running add_candidate add_container
collect c cpath container ch = add_container c cpath (c.tmpl_get_children cpath) ch
collect c cpath other ch = ch
collect c cpath _ ch =
    add_candidate c cpath (c.get_candidate cpath) (add_running c cpath (c.get_running cpath) ch)

unfoldable pub push_child : NodeParams → Str → List NodeParams → Option ConfState → List NodeParams
push_child np child coll none = coll
push_child np child coll (some s) = coll ++ (record np { name = child; state = s }) ∷ []

-- "now that we've figured out the collection, lets populate the children"
unfoldable pub populate :
    NodeParams → StrMap ConfState → List Str → List NodeParams → List NodeParams
unfolding push_child
populate np states [] coll = coll
populate np states (child ∷ children) coll =
    populate np states children (push_child np child coll (lookup child states))

-- parse_value_and_state(rel_data_path, conf_id, params)
unfoldable pub parse_value_and_state : Configd → Str → TemplateParams → TemplateParams
unfolding collect populate get_node_params
parse_value_and_state c cpath p =
    let ch =
      collect c cpath p.node_type
        (record { np = new_node_params; value_coll = []; state_coll = [] }) in
    record p {
      node_data = get_node_params c cpath p.node_data;
      children_coll = populate ch.np ch.state_coll ch.value_coll p.children_coll;
    }

enabled : List NodeParams → List NodeParams
enabled [] = []
enabled (n ∷ ns) = (record n { disabled_state = k_enable }) ∷ enabled ns

-- "Set template disable state and mirror in all children"
unfoldable pub mirror_enabled : TemplateParams → TemplateParams
unfolding enabled
mirror_enabled p = record p {
  node_data = record p.node_data { disabled_state = k_enable };
  children_coll = enabled p.children_coll;
}

configured : Configd → Str → Option TemplateParams → Option TemplateParams
unfolding parse_value_and_state mirror_enabled
configured c path none = none
configured c path (some p) = some (mirror_enabled (parse_value_and_state c path p))

-- get_configured_node(data_path, conf_id, params), with configd as it answers for a session, and
-- what the unset `node_type` of the new parameters holds
unfoldable pub get_configured_node :
    (Str → Configd) → NodeKind → Str → Str → Outcome (Option TemplateParams)
unfolding configured
get_configured_node sessions unset data_path conf_id =
    let c = sessions (decimal (strtoull_hex conf_id)) in
    get_template_node c data_path (new_template_params unset) >>= λ o.
    done (configured c data_path o)
