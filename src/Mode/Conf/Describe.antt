-- ===== src/Mode/Conf/Describe.antt =====
-- GET of a node in src/server/confmode.cc: the node's template and state as JSON.
use vyatta_rest.Prelude.{
  ℕ, Bool, true, false, not, ◌+◌, ◌-◌, List, [], ◌∷◌, ◌++◌, Option, none, some, ltb, if◌then◌else◌,
  length, take, drop,
}
use vyatta_rest.Text.{Str, codes, str_eq, find, contains}
use vyatta_rest.Text.Decimal.{signed_decimal}
use vyatta_rest.Outcome.{Outcome, done, ◌>>=◌, substr, substr_from}
use vyatta_rest.Rest.{mass_replace}
use vyatta_rest.Rest.Keys.{http_body, type_str}
use vyatta_rest.Json.{Json, new_json, add_value, add_array, serialize}
use vyatta_rest.Http.{Session, respond, command_not_found, validation_failure}
use vyatta_rest.Configuration.{
  TemplateParams, NodeParams, ConfState, k_none, k_active, k_set, k_delete, DisableState, k_enable,
  k_enable_local, k_disable, k_disable_local,
}
use vyatta_rest.Mode.Conf.{ConfHost, World, Reply, reads_node, answer, logged, conv_conf_id}

unfoldable pub state_name : ConfState → Str
state_name k_set = codes "set"
state_name k_delete = codes "delete"
state_name k_active = codes "active"
state_name k_none = codes "none"

unfoldable pub disable_name : DisableState → Str
disable_name k_disable = codes "disable"
disable_name k_disable_local = codes "disable-local"
disable_name k_enable_local = codes "enable-local"
disable_name k_enable = codes "enable"

-- The value type and the values of a description, around its first ':'.
kind_and_values : Str → Option ℕ → Str × Str
kind_and_values desc none = (desc, codes " ")
kind_and_values desc (some pos2) = (take pos2 desc, take (length desc - 2) (drop (pos2 + 1) desc))

val_help_text : Str × Str → Str → Str
val_help_text (kind, val) help =
    codes "{\"type\":\""
    ++ (kind
        ++ (codes "\",\"vals\":\"" ++ (val ++ (codes "\",\"help\":\"" ++ (help ++ codes "\"}")))))

-- `l.substr(pos1 + 2, l.length() - 3)`, whose count wraps to a large number for a short line, and
-- which throws when nothing follows the ';'.
unfoldable pub help_behind : Str → ℕ → Outcome Str
help_behind l pos1 =
    if ltb (length l) 3 then substr_from l (pos1 + 2) else substr l (pos1 + 2) (length l - 3)

-- One line of the value help.
unfoldable pub add_val_help : Str → Json → Outcome Json
unfolding kind_and_values val_help_text help_behind
add_val_help l j = elim (find (codes ";") l) [
  | none ↦ done j
  | some pos1 ↦ do
    behind ← help_behind l pos1
    quoted ← mass_replace behind (codes "\"") (codes "\\\"")
    help ← mass_replace quoted (codes "\n") []
    let desc = take pos1 l
    done (
        add_array (codes "val_help")
          (val_help_text (kind_and_values desc (find (codes ":") desc)) help) true j)
]

unfoldable pub add_val_helps : List Str → Json → Outcome Json
unfolding add_val_help
add_val_helps [] j = done j
add_val_helps (l ∷ ls) j = add_val_help l j >>= add_val_helps ls

-- `if (flag == true) json.add_value(key, "true")`
abbrev flagged : Str → Bool → Json → Json
flagged key flag j = if flag then add_value key (codes "true") j else j

child_text : NodeParams → Str
child_text n =
    codes "{\"name\":\""
    ++ (n.name
        ++ (codes "\",\"state\":\""
            ++ (state_name n.state
                ++ (codes "\",\"deactivate_state\":\""
                    ++ (disable_name n.disabled_state ++ codes "\"}")))))

unfoldable pub add_children : List NodeParams → Json → Json
unfolding child_text state_name disable_name
add_children [] j = j
add_children (n ∷ ns) j = add_children ns (add_array (codes "children") (child_text n) true j)

-- An allowed value; one that holds a quote is taken to be quoted.
unfoldable pub add_enums : List Str → Json → Json
add_enums [] j = j
add_enums (x ∷ xs) j = add_enums xs (add_array (codes "enum") x (contains (codes "\"") x) j)

-- The members up to the value help.
unfoldable pub heading : TemplateParams → Json
heading p =
    let j =
      add_array (codes "type") (type_str p.type1) false
        (add_value (codes "help") p.help new_json) in
    let j' =
      if str_eq (type_str p.type2) (codes "none")
      then j
      else add_array (codes "type") (type_str p.type2) false j in
    if str_eq p.default (codes "\n") then j' else add_value (codes "default") p.default j'

-- The members behind the value help.
unfoldable pub remainder : TemplateParams → Json → Json
unfolding add_children add_enums state_name disable_name
remainder p j =
    let j1 = flagged (codes "multi") p.is_multi (add_value (codes "allowed") p.allowed j) in
    let j2 =
      if ltb 0 p.multi_limit
      then add_value (codes "multi_limit") (signed_decimal p.multi_limit) j1
      else j1 in
    let j3 = flagged (codes "secret") p.secret (
      flagged (codes "mandatory") p.mandatory
        (flagged (codes "action") p.action (flagged (codes "end") p.end j2))) in
    let n = p.node_data in
    let j4 = add_value (codes "deactivate_state") (disable_name n.disabled_state) (
      add_value (codes "is_changed") n.is_changed
        (add_value (codes "state") (state_name n.state) (add_value (codes "name") n.name j3))) in
    add_enums p.enum (add_children p.children_coll j4)

-- The node as JSON.
unfoldable pub node_json : (Str → Str) → TemplateParams → Outcome Json
unfolding heading add_val_helps remainder
node_json escape p = do
  comp_help ← mass_replace p.comp_help (codes "\"") (codes "\\\"")
  j ← add_val_helps p.val_help (add_value (codes "comp_help") (escape comp_help) (heading p))
  done (remainder p j)

unfoldable pub described : ConfHost → Session → World → Option TemplateParams → Reply
unfolding node_json answer
described host s w none = answer command_not_found s w
described host s w (some p) = do
  j ← node_json host.escape p
  done (respond http_body (serialize j []) s, w)

-- The path behind the id, with which the node is looked up: `substr(pos + 2)`, where `npos + 2` is 1.
unfoldable pub behind_id : Str → Option ℕ → Outcome Str
behind_id conf_path_with_id none = substr_from conf_path_with_id 1
behind_id conf_path_with_id (some pos) = substr_from conf_path_with_id (pos + 2)

abbrev pub without_blank : Str → Str
without_blank [] = []
without_blank (c ∷ s) = if str_eq (c ∷ []) (codes " ") then s else c ∷ s

unfoldable pub describe : ConfHost → Session → Str → Str → Str → World → Reply
unfolding behind_id described answer logged conv_conf_id
describe host s conf_path_with_id user id w =
    let read = do
      rest ← substr_from conf_path_with_id 1
      path ← behind_id conf_path_with_id (find (codes "/") rest)
      node ← host.get_configured_node (without_blank path) id
      described host s (logged (reads_node (conv_conf_id id) (without_blank path)) w) node
    in if not (str_eq user s.user) then answer validation_failure s w else read
