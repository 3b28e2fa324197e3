-- ===== src/Configuration/Operational.antt =====
-- `Configuration::get_op_template_node` and `get_operational_node` of src/server/configuration.cc.
use vyatta_rest.Prelude.{true, not, List, [], ◌∷◌, ◌++◌, Option, none, some, ◌==◌, if◌then◌else◌}
use vyatta_rest.Text.{Str, codes, empty, str_eq}
use vyatta_rest.Outcome.{Outcome, done, ◌>>=◌}
use vyatta_rest.Configuration.{Opd, TemplateParams, NodeParams, new_node_params, k_active}
use vyatta_rest.Configuration.Entries.{key_and_value, set_help, set_insert_all}

-- The path, to which every "allowed" adds a '/', and the parameters.
abbrev pub OpReading : Type 0
OpReading = Str × TemplateParams

unfoldable pub read_op_key : Opd → Str → Str → OpReading → Outcome OpReading
unfolding set_insert_all
read_op_key o key value (cpath, p) =
    let help = set_help value p >>= λ p'. done (cpath, p') in
    let cpath' = cpath ++ codes "/" in
    if str_eq key (codes "help")
    then help
    else if str_eq key (codes "allowed")
    then done
        (cpath', record p { allowed_cmd = value; enum = set_insert_all (o.allowed cpath') p.enum })
    else if str_eq key (codes "run")
    then done (cpath, record p { action = not (empty value) })
    else done (cpath, p)

unfoldable pub read_op_entry : Opd → Option (Str × Str) → OpReading → Outcome OpReading
unfolding read_op_key
read_op_entry o none r = done r
read_op_entry o (some (key, value)) r = read_op_key o key value r

unfoldable pub read_op_entries : Opd → List Str → OpReading → Outcome OpReading
unfolding read_op_entry
read_op_entries o [] r = done r
read_op_entries o (entry ∷ entries) r =
    read_op_entry o (key_and_value entry) r >>= read_op_entries o entries

read_op_template : Opd → Str → TemplateParams → Option (List Str) → Outcome TemplateParams
unfolding read_op_entries
read_op_template o cpath p none = done p
read_op_template o cpath p (some entries) = read_op_entries o entries (cpath, p) >>= λ r. done r.1

-- get_op_template_node(path, params), which is always true
unfoldable pub get_op_template_node : Opd → Str → TemplateParams → Outcome TemplateParams
unfolding read_op_template
get_op_template_node o path p = read_op_template o path p (o.tmpl path)

-- The children, where "node.tag" is shown as "*".
unfoldable pub add_op_children : List Str → List NodeParams → List NodeParams
add_op_children [] coll = coll
add_op_children (child ∷ children) coll = add_op_children children (
    coll
    ++ (record new_node_params {
      name = if str_eq child (codes "node.tag") then codes "*" else child;
      state = k_active;
    })
      ∷ [])

with_op_children : List Str → TemplateParams → TemplateParams
unfolding add_op_children
with_op_children [] p = record p { end = true }
with_op_children (child ∷ children) p = record p {
  children_coll = add_op_children (child ∷ children) p.children_coll;
}

-- "no leading /"
unfoldable pub relative : Str → Str
relative [] = []
relative (c ∷ s) = if c == b'/' then s else c ∷ s

-- get_operational_node(node_path, params, is_admin), which is always true; is_admin is not used
unfoldable pub get_operational_node : Opd → Str → TemplateParams → Outcome TemplateParams
unfolding get_op_template_node with_op_children relative
get_operational_node o node_path p = get_op_template_node o (relative node_path) p >>= λ p'.
    done (with_op_children (o.children (relative node_path)) p')
