-- ===== src/Configuration/Read.antt =====
-- Lemmas on `Configuration::get_template_node` of src/server/configuration.cc.
use vyatta_rest.Prelude.{
  ℕ, Bool, true, false, not, List, [], ◌∷◌, Option, none, some, arith, Bool-cases, inl, inr, ◌&&◌,
  ◌||◌, ◌≡◌, ◌≢◌, refl, if◌then◌else◌,
}
use vyatta_rest.Text.{Str, codes, str_eq}
use vyatta_rest.Outcome.{Outcome, done, ◌>>=◌}
use vyatta_rest.StrProc.{str_proc}
use vyatta_rest.StrProc.Fields.{str_proc-runs}
use vyatta_rest.Rest.{mass_replace}
use vyatta_rest.Rest.Replace.{mass_replace-Replaces}
use vyatta_rest.Configuration.{Configd, TemplateParams}
use vyatta_rest.Configuration.Entries.{
  key_and_value, set_types, set_limit, set_help, set_val_help, set_syntax,
}
use vyatta_rest.Configuration.Template.{
  Reading, read_key, read_entry, read_entries, add_allowed, is_container, has_type, complete,
  inferred_end, read_template, get_template_node,
}

-- The call returns a value.
abbrev Returns {ℓ} : {A : Type ℓ} → Outcome A → Type ℓ
Returns {A} m = (a : A) × (m ≡ done a)

returns {ℓ} : {A : Type ℓ} (a : A) → Returns (done a)
returns a = (a, refl)

>>=-Returns {ℓ κ} :
    {A : Type ℓ} {B : Type κ} {m : Outcome A} {f : A → Outcome B}
    → Returns m
    → ((a : A) → Returns (f a))
    → Returns (m >>= f)
>>=-Returns {f} (a, e) h = let (b, q) = h a in (b, rw e q)

if-Returns {ℓ} :
    {A : Type ℓ} (b : Bool) {m n : Outcome A} → Returns m → Returns n → Returns (if b then m else n)
if-Returns true h k = h
if-Returns false h k = k

mass_replace-Returns : (s : Str) (c : ℕ) (p r : Str) → Returns (mass_replace s (c ∷ p) r)
mass_replace-Returns s c p r = let (t, e, h) = mass_replace-Replaces s (c ∷ p) r (λ e. cc) in (t, e)

str_proc-Returns : (s : Str) (c : ℕ) (p : Str) → c ≢ b'~' → Returns (str_proc s (c ∷ p))
str_proc-Returns s c p ne = let (u, t, n, e, h) = str_proc-runs s c p ne in (_, e)

set_types-Returns : (value : Str) (p : TemplateParams) → Returns (set_types value p)
unfolding set_types
set_types-Returns value p =
    >>=-Returns (str_proc-Returns value b',' [] (omega arith)) (λ names. returns _)

set_limit-Returns : (value : Str) (p : TemplateParams) → Returns (set_limit value p)
unfolding set_limit
set_limit-Returns value p =
    >>=-Returns (str_proc-Returns value b':' [] (omega arith)) (λ fields. returns _)

set_help-Returns : (value : Str) (p : TemplateParams) → Returns (set_help value p)
unfolding set_help
set_help-Returns value p =
    >>=-Returns (mass_replace-Returns value b'\n' [] [])
      (λ line. >>=-Returns (mass_replace-Returns line b'"' [] (codes "'")) (λ text. returns _))

set_val_help-Returns : (value : Str) (p : TemplateParams) → Returns (set_val_help value p)
unfolding set_val_help
set_val_help-Returns value p =
    >>=-Returns (mass_replace-Returns value b'\t' [] (codes "\\t")) (λ text. returns _)

set_syntax-Returns : (value : Str) (p : TemplateParams) → Returns (set_syntax value p)
unfolding set_syntax
set_syntax-Returns value p = >>=-Returns (str_proc-Returns value b' ' [] (omega arith)) (λ words.
    if-Returns _ (>>=-Returns (str_proc-Returns _ b',' [] (omega arith)) (λ coll. returns _))
      (returns p))

read_key-Returns : (key value : Str) (r : Reading) → Returns (read_key key value r)
unfolding read_key
read_key-Returns key value (is_value, p) = if-Returns (str_eq key (codes "is_value")) (returns _) (
    if-Returns (str_eq key (codes "tag")) (>>=-Returns (set_limit-Returns value _) (λ q. returns _))
      (if-Returns (str_eq key (codes "multi"))
        (>>=-Returns (set_limit-Returns value _) (λ q. returns _))
        (if-Returns (str_eq key (codes "default")) (returns _) (
          if-Returns (str_eq key (codes "type"))
            (>>=-Returns (set_types-Returns value p) (λ q. returns _))
            (if-Returns (str_eq key (codes "comp_help"))
              (>>=-Returns (mass_replace-Returns value b'\n' [] (codes "\\n")) (λ text. returns _))
              (if-Returns (str_eq key (codes "val_help"))
                (>>=-Returns (set_val_help-Returns value p) (λ q. returns _))
                (if-Returns (str_eq key (codes "help"))
                  (>>=-Returns (set_help-Returns value p) (λ q. returns _))
                  (if-Returns (str_eq key (codes "syntax"))
                    (>>=-Returns (set_syntax-Returns value p) (λ q. returns _))
                    (if-Returns (str_eq key (codes "enumeration")) (returns _) (
                      if-Returns (str_eq key (codes "allowed")) (returns _) (
                        if-Returns (str_eq key (codes "secret")) (returns _)
                          (if-Returns (str_eq key (codes "run")) (returns _) (returns _)))))))))))))

read_entry-Returns :
    (children : List Str) (entry : Option (Str × Str)) (r : Reading)
    → Returns (read_entry children entry r)
unfolding read_entry
read_entry-Returns children none r = returns r
read_entry-Returns children (some (key, value)) r =
    >>=-Returns (read_key-Returns key value r) (λ o. returns _)

read_entries-Returns :
    (children entries : List Str) (r : Reading) → Returns (read_entries children entries r)
unfolding read_entries
read_entries-Returns children [] r = returns r
read_entries-Returns children (entry ∷ entries) r =
    >>=-Returns (read_entry-Returns children (key_and_value entry) r)
      (read_entries-Returns children entries)

add_allowed-Returns : (strs : List Str) (p : TemplateParams) → Returns (add_allowed strs p)
unfolding add_allowed
add_allowed-Returns [] p = returns p
add_allowed-Returns (str ∷ strs) p =
    >>=-Returns (mass_replace-Returns str b'\\' (codes "<\\>") (codes "*"))
      (λ tmp. add_allowed-Returns strs _)

complete-Returns : (c : Configd) (cpath : Str) (r : Reading) → Returns (complete c cpath r)
unfolding complete
complete-Returns c cpath (is_value, p) =
    if-Returns (is_container (c.node_get_type cpath)) (returns _)
      (>>=-Returns (add_allowed-Returns _ _) (λ p'. returns _))

-- No type, several values, or the end of the path.
abbrev pub IsEnded : TemplateParams → Type 0
IsEnded p = (not (has_type p.type1) || (p.is_multi || p.end)) ≡ true

ended_here : (typed multi : Bool) → (not typed || (multi || true)) ≡ true
ended_here true true = refl
ended_here true false = refl
ended_here false multi = refl

ended_before :
    (typed multi end : Bool) → (typed && not multi) ≡ false → (not typed || (multi || end)) ≡ true
ended_before true true end h = refl
ended_before true false end h = cc
ended_before false multi end h = refl

inferred_end-IsEnded : (p : TemplateParams) → IsEnded (inferred_end p)
unfolding inferred_end
inferred_end-IsEnded p = elim (Bool-cases (has_type p.type1 && not p.is_multi)) [
  | inl b ↦ rw b (ended_here (has_type p.type1) p.is_multi)
  | inr b ↦ rw b (ended_before (has_type p.type1) p.is_multi p.end b)
]

-- What the call finds: the path has no template, none is held for it, it is without entries, or it
-- has been read.
pub data Found (c : Configd) (path : Str) (p : TemplateParams)
    : Option TemplateParams → Type 0 where
  invalid : c.tmpl_validate_path path ≡ false → Found c path p none
  missing : c.tmpl_validate_path path ≡ true → c.tmpl_get path ≡ none → Found c path p (some p)
  without_entries :
      {q : TemplateParams}
      → c.tmpl_validate_path path ≡ true
      → c.tmpl_get path ≡ some []
      → Found c path p (some q)
  with_entries :
      {q : TemplateParams} {entry : Str} {entries : List Str}
      → c.tmpl_validate_path path ≡ true
      → c.tmpl_get path ≡ some (entry ∷ entries)
      → IsEnded q
      → Found c path p (some q)

module _ (c : Configd) (path : Str) (p : TemplateParams)
    (valid : c.tmpl_validate_path path ≡ true) where
  Finds : Option (List Str) → Type 0
  Finds m = (q : TemplateParams) × (read_template c path p m ≡ done q) × Found c path p (some q)

  read_template-Found : (m : Option (List Str)) → c.tmpl_get path ≡ m → Finds m
  unfolding read_template Finds
  read_template-Found none e = (p, refl, missing valid e)
  read_template-Found (some []) e =
      let (q, h) = complete-Returns c path (false, p) in (q, h, without_entries valid e)
  read_template-Found (some (entry ∷ entries)) e =
      let (r, h) = read_entries-Returns (c.tmpl_get_children path) (entry ∷ entries) (false, p) in
      let (q, k) = complete-Returns c path r in
      (inferred_end q, rw (h, k), with_entries valid e (inferred_end-IsEnded q))

-- get_template_node ends on every template, without an exception: with false for a path that is not
-- valid, the parameters as they were where no template is held, and otherwise parameters that, when
-- the template has an entry, have no type, take several values, or are at the end of the path.
pub get_template_node-Found :
    (c : Configd) (path : Str) (p : TemplateParams)
    → (r : Option TemplateParams) × (get_template_node c path p ≡ done r) × Found c path p r
unfolding get_template_node Finds
get_template_node-Found c path p = elim (Bool-cases (c.tmpl_validate_path path)) [
  | inl b ↦
      let (q, e, h) = read_template-Found c path p b (c.tmpl_get path) refl in
      (some q, rw (b, e), h)
  | inr b ↦ (none, rw b, invalid b)
]
