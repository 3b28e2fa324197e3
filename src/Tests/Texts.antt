-- ===== src/Tests/Texts.antt =====
-- Inputs for the results on texts, JSON and responses.
use vyatta_rest.Prelude.{◌≡◌, refl, false, [], ◌∷◌, ◌++◌, All, arith}
use vyatta_rest.Text.{Str, codes}
use vyatta_rest.Outcome.{done}
use vyatta_rest.Rest.{mass_replace}
use vyatta_rest.Rest.Replace.{Replaces, mass_replace-Replaces, mass_replace-byte, replace_byte}
use vyatta_rest.Rest.Cli.{translate_rest_to_cli, translate_single}
use vyatta_rest.Tests.Words.{Lacks-has, field}
use vyatta_rest.StrProc.{str_proc}
use vyatta_rest.StrProc.Newline.{Unlined}
use vyatta_rest.StrProc.Pieces.{runs}
use vyatta_rest.StrProc.Fields.{IsField, expand_tabs, join, str_proc-runs, str_proc-join}
use vyatta_rest.Json.{json, no_hash, serialize as serialize_json}
use vyatta_rest.Json.Members.{commas, members, serialize-members}
use vyatta_rest.Http.{new_session, serialize, error, error_code, validation_failure}
use vyatta_rest.Http.Errors.{Answered, error_text, error_lem}

mass_replace-Replaces_example :
    (answer : Str) × (mass_replace (codes "a%2Fb%2F") (codes "%2F") (codes "/") ≡ done answer)
    × Replaces (codes "%2F") (codes "/") (codes "a%2Fb%2F") answer
mass_replace-Replaces_example =
    mass_replace-Replaces (codes "a%2Fb%2F") (codes "%2F") (codes "/") (λ e. cc)

mass_replace-byte_example :
    mass_replace (codes "/show//version") (codes "/") (codes " ")
    ≡ done (replace_byte b'/' (codes " ") (codes "/show//version"))
mass_replace-byte_example = mass_replace-byte (codes "/show//version") (codes " ") b'/'

str_proc-runs_example :
    (u : Str) × (t : Str) × Unlined (expand_tabs (codes "key,vyatta,0")) u
    × (str_proc (codes "key,vyatta,0") (codes ",") ≡ done (runs [] t))
    × Replaces (codes ",") (codes "~") u t
str_proc-runs_example = str_proc-runs (codes "key,vyatta,0") b',' [] (omega arith)

process_fields : All (IsField (codes ":")) (codes "ls" ∷ codes "vyatta" ∷ [])
process_fields = (
  field b':' [] (codes "ls") (λ e. cc) refl refl,
  (field b':' [] (codes "vyatta") (λ e. cc) refl refl, tt),
)

str_proc-join_example :
    str_proc (join (codes ":") (codes "ls" ∷ codes "vyatta" ∷ [])) (codes ":")
    ≡ done (codes "ls" ∷ codes "vyatta" ∷ [])
str_proc-join_example =
    str_proc-join b':' [] (omega arith) (omega arith, tt) (omega arith, tt)
      (codes "ls" ∷ codes "vyatta" ∷ []) process_fields

serialize-members_example :
    serialize_json
      (json
        ((codes "enum", codes "1" ∷ codes "2" ∷ []) ∷ [])
        ((codes "help", codes "x") ∷ [])
        no_hash)
      []
    ≡ codes "{"
      ++ (commas (
            members
              ((codes "enum", codes "1" ∷ codes "2" ∷ []) ∷ [])
              ((codes "help", codes "x") ∷ []))
          ++ codes "}")
serialize-members_example =
    serialize-members ((codes "enum", codes "1" ∷ codes "2" ∷ []) ∷ [])
      ((codes "help", codes "x") ∷ []) [] tt (λ e. cc)

error_lem_example :
    Answered
      (error_code validation_failure)
      (error_text validation_failure)
      (new_session false)
      (error validation_failure (new_session false))
error_lem_example = error_lem validation_failure (new_session false)

translate_single_example : translate_rest_to_cli (λ t. t) (codes "reboot") ≡ done []
translate_single_example =
    translate_single (λ t. t) (codes "reboot") (Lacks-has b'/' (codes "reboot") refl)
