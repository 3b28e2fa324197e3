-- ===== src/Tests/Configuring.antt =====
-- Inputs for the results on the configuration mode, its files and tokens.
use vyatta_rest.Prelude.{
  ℕ, suc, zero, ◌+◌, ◌*◌, ◌^◌, ◌≡◌, ◌≢◌, ◌<◌, refl, true, false, [], ◌∷◌, Option, none, some, arith,
  if◌then◌else◌,
}
use vyatta_rest.Text.{c_str, Str, codes, str_eq, find, starts_with}
use vyatta_rest.Outcome.{done, no_fuel}
use vyatta_rest.Rest.Token.{Opening, byte_at, word_at, token_of, generate_token}
use vyatta_rest.Rest.Token.Digits.{IsToken, Unlucky, Gives, little_endian, generate_token_lem}
use vyatta_rest.Rest.Modify.{
  TmpDir, create_conf_modify_file, read_conf_modify_file, read_conf_modify_file_from_tag, fgets,
  split_owner, read_text, from_tag_loop,
}
use vyatta_rest.Rest.Modify.Found.{Carried, Looked, read-create, from_tag-Looked}
use vyatta_rest.Rest.Keys.{auth_type_basic, http_req_uri, http_req_method}
use vyatta_rest.Http.{Session, new_session, new_http, set, vyattacfg, vyatta_debug}
use vyatta_rest.Mode.Conf.{ConfHost, World, message_body, discard_session}
use vyatta_rest.Mode.Conf.Owned.{Grown}
use vyatta_rest.Mode.Conf.Process.{process, by_method, by_file, by_tag, named_id, remove}
use vyatta_rest.Mode.Conf.Ownership.{process_owns}
use vyatta_rest.Tests.Words.{Lacks-has}

-- /dev/urandom that gives 255 first, and then 1 each time.
abbrev openings : ℕ → Opening
openings zero = some (λ i. some 255)
openings (suc n) = some (λ i. some 1)

openings-Unlucky : (j : ℕ) → j < 1 → Unlucky (openings j)
unfolding token_of word_at byte_at
openings-Unlucky zero h = (λ i. some 255, refl, refl)
openings-Unlucky (suc j) h = absurd (omega arith)

generate_token_lem_example :
    ((n : ℕ) (b : ℕ → ℕ) (source : ℕ → Option ℕ)
      → ((j : ℕ) → j < n → Unlucky (openings j))
      → openings n ≡ some source
      → Gives b source
      → (t : Str) × (generate_token (suc n) openings ≡ done t)
        × IsToken (little_endian b 0 * 2 ^ 32 + little_endian b 4) t)
    × (((j : ℕ) → openings j ≡ none) → generate_token 6 openings ≡ done [])
    × (((j : ℕ) → Unlucky (openings j)) → (fuel : ℕ) → generate_token fuel openings ≡ no_fuel)
generate_token_lem_example = generate_token_lem openings

-- The second opening makes the token.
generated : (t : Str) × (generate_token 2 openings ≡ done t) × IsToken 72340172838076673 t
generated =
    generate_token_lem_example.0 1 (λ i. 1) (λ i. some 1) openings-Unlucky refl
      (λ i le. (refl, omega arith))

abbrev id : Str
id = codes "0123456789ABCDEF"

abbrev user : Str
user = codes "vyatta"

abbrev label : Str
label = codes "mine"

-- A directory with no session.
abbrev dir : TmpDir
dir = record {
  opens = true;
  names = [];
  content = λ j. none;
  writable = λ j. true;
  puts = λ j. true;
}

-- A directory with one session of the user.
abbrev used_dir : TmpDir
used_dir = record {
  opens = true;
  names = codes ".vyattamodify_0123456789ABCDEF" ∷ [];
  content = λ j. if str_eq j id then some (codes "vyatta/mine") else none;
  writable = λ j. true;
  puts = λ j. true;
}

label-Carried : Carried user label
label-Carried = (
  Lacks-has b'/' user refl,
  Lacks-has b'\n' (codes "vyatta/mine") refl,
  Lacks-has 0 (codes "vyatta/mine") refl,
  omega arith,
)

read-create_example :
    (d' : TmpDir) × (create_conf_modify_file id user label dir ≡ (true, d'))
    × ((u0 t0 : Str) → read_conf_modify_file d' id u0 t0 ≡ (true, user, label))
    × ((j u0 t0 : Str)
        → j ≢ id
        → read_conf_modify_file d' j u0 t0 ≡ read_conf_modify_file dir j u0 t0)
read-create_example = read-create dir id user label refl refl label-Carried

from_tag-Looked_example :
    Looked used_dir user label used_dir.names (read_conf_modify_file_from_tag used_dir label user)
from_tag-Looked_example = from_tag-Looked used_dir user label refl

abbrev pub conf_host : ConfHost
conf_host = record {
  connects = λ sid. true;
  sess_setup = λ sid. true;
  sess_changed = λ sid. false;
  commit = λ sid. (some [], none);
  save = λ sid. (some [], none);
  shell = λ command. some (0, []);
  token = id;
  unescape = λ t. t;
  escape = λ t. t;
  stat = λ path. none;
  get_configured_node = λ path sid. done none;
  debug = false;
}

abbrev request : Str → Str → Session
request method uri = record (new_session false) {
  request = set http_req_uri uri (set http_req_method method new_http);
  user = user;
  access_level = vyattacfg;
  auth_type = auth_type_basic;
}

abbrev posting : Session
posting = request (codes "POST") (codes "/rest/conf/mine")

-- DELETE of the user's session.
removed :
    (s' : Session) × (w' : World) × (process conf_host
        (request (codes "DELETE") (codes "/rest/conf/mine"))
        (record { dir = used_dir; calls = [] })
      ≡ done (s', w'))
unfolding process by_method by_file by_tag named_id find starts_with str_eq vyatta_debug remove
    read_conf_modify_file fgets c_str split_owner from_tag_loop read_text message_body
    discard_session read_conf_modify_file_from_tag
removed = (_, _, refl)

process_owns_example : Grown used_dir id user [] removed.1
process_owns_example =
    process_owns conf_host (request (codes "DELETE") (codes "/rest/conf/mine"))
      (record { dir = used_dir; calls = [] }) {s' = removed.0} {w' = removed.1} removed.2
