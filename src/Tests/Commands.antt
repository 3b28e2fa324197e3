-- ===== src/Tests/Commands.antt =====
-- Inputs for the results on the daemon's commands, its loop, and the children of a node.
use vyatta_rest.Prelude.{◌≡◌, refl, true, List, Option, [], ◌∷◌, map, none, some, if◌then◌else◌}
use vyatta_rest.Text.{Str, codes, str_eq}
use vyatta_rest.Text.Decimal.{strtoul}
use vyatta_rest.Outcome.{done}
use vyatta_rest.Chunker.Message.{command_message}
use vyatta_rest.Chunker.Manager.{Manager, Action}
use vyatta_rest.Chunker.Daemon.{size, Settings, bytes, parse_options, defaults, new_manager, run}
use vyatta_rest.Chunker.Daemon.Reachable.{Sound, Reachable, run-Sound}
use vyatta_rest.Configuration.{
  Configd, TemplateParams, NodeParams, new_template_params, k_enable, tag, added, unchanged, absent,
  present,
}
use vyatta_rest.Configuration.Template.{get_template_node}
use vyatta_rest.Configuration.Read.{Found, get_template_node-Found}
use vyatta_rest.Configuration.States.{parse_value_and_state}
use vyatta_rest.Configuration.Children.{
  shown, known, unseen, child_state, child_names, parse_value_and_state_lem,
}
use vyatta_rest.Tests.Daemon.{host, token}

abbrev settings : Settings
settings = record defaults { chunk_size = 4096 }

parsed : parse_options (size (codes "4096") ∷ []) defaults ≡ some settings
unfolding parse_options strtoul
parsed = refl

abbrev message : Str
message = command_message token (codes "show 'version'") (codes "vyatta")

run-Sound_example :
    (m : Manager) × (acts : List Action) × (run ((host, bytes message) ∷ []) (new_manager settings)
      ≡ done (m, acts))
    × Reachable m
    × Sound m
run-Sound_example =
    run-Sound (size (codes "4096") ∷ []) settings ((host, bytes message) ∷ []) parsed (tt, tt)

-- A session in which the tag node has eth0, and eth1 has been added.
abbrev configd : Configd
configd = record {
  tmpl_validate_path = λ path. true;
  tmpl_get = λ path. none;
  tmpl_get_children = λ path. [];
  tmpl_get_allowed = λ path. [];
  node_get_type = λ path. tag;
  node_get_status = λ path. if str_eq path (codes "ethernet/eth1") then added else unchanged;
  exists_running = λ path. if str_eq path (codes "ethernet/eth1") then absent else present;
  exists_candidate = λ path. present;
  get_running = λ path. codes "eth0" ∷ [];
  get_candidate = λ path. codes "eth0" ∷ codes "eth1" ∷ [];
  url_escape = λ t. t;
}

parse_value_and_state_lem_example :
    (np : NodeParams) × (np.disabled_state ≡ k_enable)
    × ((parse_value_and_state configd (codes "ethernet") (new_template_params tag)).children_coll
        ≡ map
            (shown np (child_state configd (codes "ethernet") tag))
            (child_names configd (codes "ethernet") tag))
parse_value_and_state_lem_example =
    parse_value_and_state_lem configd (codes "ethernet") (new_template_params tag)

-- The children that it shows.
children : child_names configd (codes "ethernet") tag ≡ codes "eth0" ∷ codes "eth1" ∷ []
unfolding unseen known str_eq
children = refl

-- The template of a speed, with its values, its help and its limit.
abbrev templates : Configd
templates = record configd {
  tmpl_get = λ path. some (
      codes "type=txt"
      ∷ codes "help=[REQUIRED] \"Speed\""
      ∷ codes "ignored"
      ∷ codes "syntax=expression: $VAR(@) in \"auto\", \"10\"; \"one of\""
      ∷ []);
}

get_template_node-Found_example :
    (r : Option TemplateParams) × (get_template_node templates
        (codes "speed")
        (new_template_params tag)
      ≡ done r)
    × Found templates (codes "speed") (new_template_params tag) r
get_template_node-Found_example =
    get_template_node-Found templates (codes "speed") (new_template_params tag)
