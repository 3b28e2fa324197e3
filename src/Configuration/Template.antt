-- ===== src/Configuration/Template.antt =====
-- `Configuration::get_template_node` of src/server/configuration.cc.
use vyatta_rest.Prelude.{
  Bool, true, false, not, ◌&&◌, List, [], ◌∷◌, Option, none, some, if◌then◌else◌,
}
use vyatta_rest.Text.{Str, codes, str_eq}
use vyatta_rest.Outcome.{Outcome, done, ◌>>=◌}
use vyatta_rest.Rest.{mass_replace}
use vyatta_rest.Rest.Keys as Keys
use vyatta_rest.Configuration.{
  Configd, TemplateParams, NodeKind, leaf, multi, tag, container, other,
}
use vyatta_rest.Configuration.Entries.{
  key_and_value, set_types, set_limit, set_help, set_val_help, set_syntax, set_insert,
}

-- How far the loop over the entries has come: `is_value`, and the parameters.
abbrev pub Reading : Type 0
Reading = Bool × TemplateParams

abbrev kept : Bool → TemplateParams → Outcome (Option Reading)
kept is_value p = done (some (is_value, p))

-- One key; `none` for a key that is ignored, behind which the loop goes on.
unfoldable pub read_key : Str → Str → Reading → Outcome (Option Reading)
read_key key value (is_value, p) =
    let tag = set_limit value (record p { is_multi = true }) >>= kept is_value in
    let multi = set_limit value (record p { is_multi = true; end = true }) >>= kept is_value in
    let type = set_types value p >>= kept is_value in
    let comp_help = mass_replace value (codes "\n") (codes "\\n") >>= λ text.
    kept is_value (record p { comp_help = text }) in
    let val_help = set_val_help value p >>= kept is_value in
    let help = set_help value p >>= kept is_value in
    let syntax = set_syntax value p >>= kept is_value in
    if str_eq key (codes "is_value")
    then kept true p
    else if str_eq key (codes "tag")
    then tag
    else if str_eq key (codes "multi")
    then multi
    else if str_eq key (codes "default")
    then kept is_value (record p { default = value })
    else if str_eq key (codes "type")
    then type
    else if str_eq key (codes "comp_help")
    then comp_help
    else if str_eq key (codes "val_help")
    then val_help
    else if str_eq key (codes "help")
    then help
    else if str_eq key (codes "syntax")
    then syntax
    else if str_eq key (codes "enumeration")
    then kept is_value (record p { enumeration_cmd = value })
    else if str_eq key (codes "allowed")
    then kept is_value (record p { allowed_cmd = value })
    else if str_eq key (codes "secret")
    then kept is_value (record p { secret = true })
    else if str_eq key (codes "run")
    then kept is_value (record p { action = true })
    else done none

-- "typeless leaf nodes": a node without children ends the path.
unfoldable pub end_if_childless : List Str → TemplateParams → TemplateParams
end_if_childless [] p = record p { end = true }
end_if_childless (c ∷ cs) p = p

after_key : List Str → Reading → Option Reading → Reading
unfolding end_if_childless
after_key children r none = r
after_key children r (some (is_value, p)) = (is_value, end_if_childless children p)

unfoldable pub read_entry : List Str → Option (Str × Str) → Reading → Outcome Reading
unfolding read_key after_key
read_entry children none r = done r
read_entry children (some (key, value)) r =
    read_key key value r >>= λ o. done (after_key children r o)

unfoldable pub read_entries : List Str → List Str → Reading → Outcome Reading
unfolding read_entry
read_entries children [] r = done r
read_entries children (entry ∷ entries) r =
    read_entry children (key_and_value entry) r >>= read_entries children entries

-- The values that the daemon allows.
unfoldable pub add_allowed : List Str → TemplateParams → Outcome TemplateParams
add_allowed [] p = done p
add_allowed (str ∷ strs) p = mass_replace str (codes "\\<\\>") (codes "*") >>= λ tmp.
    add_allowed strs (record p { enum = set_insert tmp p.enum })

abbrev pub is_container : NodeKind → Bool
is_container leaf = false
is_container multi = false
is_container tag = false
is_container container = true
is_container other = false

-- A value of a tag node stands for no type of its own.
unfoldable pub value_reset : Reading → TemplateParams
value_reset (is_value, p) =
    if is_value && (p.is_multi && not p.end)
    then record p { type1 = Keys.none; enum = []; val_help = []; help = []; is_multi = false }
    else p

abbrev pub has_type : Keys.NodeType → Bool
has_type Keys.none = false
has_type _ = true

-- "infer end node for typeless leaf"
unfoldable pub inferred_end : TemplateParams → TemplateParams
inferred_end p = if has_type p.type1 && not p.is_multi then record p { end = true } else p

-- Behind the entries.
unfoldable pub complete : Configd → Str → Reading → Outcome TemplateParams
unfolding add_allowed value_reset
complete c cpath (is_value, q) =
    let p = record q { node_type = c.node_get_type cpath } in
    let allowed =
      add_allowed (c.tmpl_get_allowed cpath) p >>= λ p'. done (value_reset (is_value, p')) in
    if is_container p.node_type then done (value_reset (is_value, p)) else allowed

-- The template's map: an empty one or none at all leaves what is inferred from it out.
unfoldable pub read_template :
    Configd → Str → TemplateParams → Option (List Str) → Outcome TemplateParams
unfolding read_entries complete inferred_end
read_template c cpath p none = done p
read_template c cpath p (some []) = complete c cpath (false, p)
read_template c cpath p (some (entry ∷ entries)) = do
  r ← read_entries (c.tmpl_get_children cpath) (entry ∷ entries) (false, p)
  p' ← complete c cpath r
  done (inferred_end p')

-- get_template_node(path, params): `none` for false.
unfoldable pub get_template_node : Configd → Str → TemplateParams → Outcome (Option TemplateParams)
unfolding read_template
get_template_node c path p =
    let found = read_template c path p (c.tmpl_get path) >>= λ p'. done (some p') in
    if c.tmpl_validate_path path then found else done none
