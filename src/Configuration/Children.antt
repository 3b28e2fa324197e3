-- ===== src/Configuration/Children.antt =====
-- Which children src/server/configuration.cc shows for a node, and in which state.
use vyatta_rest.Prelude.{
  ◌≡◌, refl, ap, sym, subst, ◌∙◌, Bool, true, false, ◌||◌, List, [], ◌∷◌, ◌++◌, Option, none, some,
  map, arith, append-nil, append_assoc, if◌then◌else◌, Bool-cases, inl, inr, Option-cases, All,
}
use vyatta_rest.Text.{Str, str_eq}
use vyatta_rest.Text.Find.{str_eq_iff, str_eq_refl}
use vyatta_rest.Text.Map.{StrMap, lookup, lookup-assign}
use vyatta_rest.Configuration.{
  Configd, TemplateParams, NodeParams, new_node_params, ConfState, k_enable, NodeKind, leaf, multi,
  tag, container, other,
}
use vyatta_rest.Configuration.States.{
  state_of, get_node_params, child_path, insert_state, Children, add_value, add_running,
  add_unknown, add_candidate, container_state, add_container, collect, push_child, populate,
  parse_value_and_state,
}

unfoldable pub known : Str → List Str → Bool
known k [] = false
known k (x ∷ xs) = str_eq x k || known k xs

-- The values that were not seen, each once.
unfoldable pub unseen : List Str → List Str → List Str
unfolding known
unseen seen [] = []
unseen seen (x ∷ xs) =
    let skipped = unseen seen xs in
    let shown = x ∷ unseen (seen ++ x ∷ []) xs in if known x seen then skipped else shown

known-append : (k x : Str) (xs : List Str) → known k (xs ++ x ∷ []) ≡ (known k xs || str_eq x k)
unfolding known
known-append k x [] = ground arith
known-append k x (y ∷ xs) = ground (arith, known-append k x xs)

if_known : (st : Str → ConfState) → Str → List Str → Option ConfState
if_known st k xs = if known k xs then some (st k) else none

-- Each value that was collected has its state, and no other has one.
abbrev Collected : (Str → ConfState) → Children → Type 0
Collected st ch = (k : Str) → lookup k ch.state_coll ≡ if_known st k ch.value_coll

lookup-insert_state :
    (k x : Str) (s : ConfState) (m : StrMap ConfState)
    → lookup k (insert_state x s m) ≡ elim (lookup x m) [
      | none ↦ if str_eq x k then some s else lookup k m
      | some old ↦ lookup k m
    ]
unfolding insert_state
lookup-insert_state k x s m = elim (Option-cases (lookup x m)) [
  | inl e ↦ rw (insert_state, e) (lookup-assign x k s m)
  | inr (old, e) ↦ rw (insert_state, e)
]

or_false : (b : Bool) → (b || false) ≡ b
or_false true = refl
or_false false = refl

-- Adding a value with its state keeps that.
module _ (st : Str → ConfState) (vs : List Str) (m : StrMap ConfState) where
  known_same : (x k : Str) → str_eq x k ≡ true → known k vs ≡ known x vs
  known_same x k e = ap (λ y. known y vs) (sym ((str_eq_iff x k).0 e))

  insert_state-known :
      (x k : Str)
      → lookup x m ≡ if_known st x vs
      → lookup k m ≡ if_known st k vs
      → lookup k (insert_state x (st x) m) ≡ if_known st k (vs ++ x ∷ [])
  unfolding if_known
  insert_state-known x k h g =
      let r : if_known st k (vs ++ x ∷ [])
          ≡ (if known k vs || str_eq x k then some (st k) else none) =
        ap (λ b. if b then some (st k) else none) (known-append k x vs) in
      lookup-insert_state k x (st x) m ∙ elim (Bool-cases (str_eq x k)) [
        | inl e ↦
            let q = (str_eq_iff x k).0 e in
            let same = known_same x k e in
            elim (Bool-cases (known x vs)) [
              | inl b ↦ rw (h, b, r, same, b) (g ∙ rw (same, b))
              | inr b ↦ rw (h, b, r, same, b, e) (ap (λ y. some (st y)) q)
            ]
        | inr e ↦
            let f = ap (λ b. if b then some (st k) else none) (sym (or_false (known k vs))) in
            elim (Bool-cases (known x vs)) [
              | inl b ↦ rw (h, b, r, e) (g ∙ f)
              | inr b ↦ rw (h, b, r, e) (g ∙ f)
            ]
      ]

module _ (c : Configd) (cpath : Str) where
  -- The state of a value of a leaf, multi or tag node: that of its path.
  abbrev pub value_state : Str → ConfState
  value_state child =
      let path = child_path cpath (c.url_escape child) in
      (state_of (c.node_get_status path) (c.exists_running path)).0

  -- The state of a child of a container: by the trees that it is in.
  abbrev pub member_state : Str → ConfState
  member_state child =
      let path = child_path cpath child in
      container_state (c.exists_candidate path) (c.exists_running path)

  -- What a loop over the values makes of the collection.
  abbrev Extends : (Str → ConfState) → Children → List Str → Children → Type 0
  Extends st ch names ch' =
      (ch'.value_coll ≡ ch.value_coll ++ names)
      × Collected st ch'
      × (ch'.np.disabled_state ≡ ch.np.disabled_state)

  add_value-Collected :
      (x : Str) (ch : Children)
      → Collected value_state ch
      → Collected value_state (add_value c cpath x ch)
  unfolding add_value get_node_params
  add_value-Collected x ch h k =
      insert_state-known value_state ch.value_coll ch.state_coll x k (h x) (h k)

  add_value-names :
      (x : Str) (ch : Children) → (add_value c cpath x ch).value_coll ≡ ch.value_coll ++ x ∷ []
  unfolding add_value
  add_value-names x ch = refl

  add_value-disabled :
      (x : Str) (ch : Children) → (add_value c cpath x ch).np.disabled_state ≡ ch.np.disabled_state
  unfolding add_value get_node_params
  add_value-disabled x ch = refl

  Extends-cons :
      (x : Str) (xs : List Str) (ch ch' : Children)
      → Extends value_state (add_value c cpath x ch) xs ch'
      → Extends value_state ch (x ∷ xs) ch'
  Extends-cons x xs ch ch' (p, q, r) = (
    p ∙ ap (λ l. l ++ xs) (add_value-names x ch) ∙ append_assoc ch.value_coll (x ∷ []) xs,
    q,
    r ∙ add_value-disabled x ch,
  )

  add_running-Extends :
      (xs : List Str) (ch : Children)
      → Collected value_state ch
      → Extends value_state ch xs (add_running c cpath xs ch)
  unfolding add_running
  add_running-Extends [] ch h = (sym (append-nil ch.value_coll), h, refl)
  add_running-Extends (x ∷ xs) ch h =
      Extends-cons x xs ch (add_running c cpath xs (add_value c cpath x ch))
        (add_running-Extends xs (add_value c cpath x ch) (add_value-Collected x ch h))

  add_unknown-known :
      (x : Str) (ch : Children)
      → Collected value_state ch
      → add_unknown c cpath x ch (lookup x ch.state_coll)
        ≡ (if known x ch.value_coll then ch else add_value c cpath x ch)
  unfolding add_unknown if_known
  add_unknown-known x ch h =
      ap (add_unknown c cpath x ch) (h x)
      ∙ elim (Bool-cases (known x ch.value_coll)) [ inl b ↦ rw b | inr b ↦ rw b ]

  candidate_step :
      (b : Bool) (x : Str) (xs : List Str) (ch : Children)
      → Extends value_state ch (unseen ch.value_coll xs) (add_candidate c cpath xs ch)
      → Extends value_state
          (add_value c cpath x ch)
          (unseen (add_value c cpath x ch).value_coll xs)
          (add_candidate c cpath xs (add_value c cpath x ch))
      → Extends value_state ch
          (if b then unseen ch.value_coll xs else x ∷ unseen (ch.value_coll ++ x ∷ []) xs)
          (add_candidate c cpath xs (if b then ch else add_value c cpath x ch))
  candidate_step true x xs ch g k = g
  candidate_step false x xs ch g k =
      Extends-cons x (unseen (ch.value_coll ++ x ∷ []) xs) ch
        (add_candidate c cpath xs (add_value c cpath x ch))
        (subst
          (λ v.
            Extends value_state (add_value c cpath x ch) (unseen v xs)
              (add_candidate c cpath xs (add_value c cpath x ch)))
          (add_value-names x ch) k)

  add_candidate-Extends :
      (xs : List Str) (ch : Children)
      → Collected value_state ch
      → Extends value_state ch (unseen ch.value_coll xs) (add_candidate c cpath xs ch)
  unfolding add_candidate unseen
  add_candidate-Extends [] ch h = (sym (append-nil ch.value_coll), h, refl)
  add_candidate-Extends (x ∷ xs) ch h =
      subst
        (λ y. Extends value_state ch (unseen ch.value_coll (x ∷ xs)) (add_candidate c cpath xs y))
        (sym (add_unknown-known x ch h))
        (candidate_step (known x ch.value_coll) x xs ch (add_candidate-Extends xs ch h)
          (add_candidate-Extends xs (add_value c cpath x ch) (add_value-Collected x ch h)))

  -- The children of a container.
  add_container-Extends :
      (xs : List Str) (ch : Children)
      → Collected member_state ch
      → Extends member_state ch xs (add_container c cpath xs ch)
  unfolding add_container
  add_container-Extends [] ch h = (sym (append-nil ch.value_coll), h, refl)
  add_container-Extends (x ∷ xs) ch h =
      let ch' : Children = record ch {
        value_coll = ch.value_coll ++ x ∷ [];
        state_coll = insert_state x (member_state x) ch.state_coll;
      } in
      let (p, q, r) =
        add_container-Extends xs ch'
          (λ k. insert_state-known member_state ch.value_coll ch.state_coll x k (h x) (h k)) in
      (p ∙ append_assoc ch.value_coll (x ∷ []) xs, q, r)

  abbrev empty_children : Children
  empty_children = record { np = new_node_params; value_coll = []; state_coll = [] }

  empty-Collected : (st : Str → ConfState) → Collected st empty_children
  unfolding lookup if_known known
  empty-Collected st k = refl

  -- The names of the children by the kind of the node.
  abbrev pub child_names : NodeKind → List Str
  child_names container = c.tmpl_get_children cpath
  child_names other = []
  child_names _ = c.get_running cpath ++ unseen (c.get_running cpath) (c.get_candidate cpath)

  abbrev pub child_state : NodeKind → Str → ConfState
  child_state container = member_state
  child_state _ = value_state

  value_nodes :
      Extends value_state empty_children
        (c.get_running cpath ++ unseen (c.get_running cpath) (c.get_candidate cpath))
        (add_candidate c cpath
          (c.get_candidate cpath)
          (add_running c cpath (c.get_running cpath) empty_children))
  value_nodes =
      let ch = add_running c cpath (c.get_running cpath) empty_children in
      let (p, q, r) =
        add_running-Extends (c.get_running cpath) empty_children (empty-Collected value_state) in
      let (p', q', r') = add_candidate-Extends (c.get_candidate cpath) ch q in
      (p' ∙ ap (λ v. v ++ unseen v (c.get_candidate cpath)) p, q', r' ∙ r)

  collect-Extends :
      (kind : NodeKind)
      → Extends
          (child_state kind)
          empty_children
          (child_names kind)
          (collect c cpath kind empty_children)
  unfolding collect
  collect-Extends container =
      add_container-Extends (c.tmpl_get_children cpath) empty_children
        (empty-Collected member_state)
  collect-Extends other = (refl, empty-Collected value_state, refl)
  collect-Extends leaf = value_nodes
  collect-Extends multi = value_nodes
  collect-Extends tag = value_nodes

-- A child as it is shown.
abbrev pub shown : NodeParams → (Str → ConfState) → Str → NodeParams
shown np st child = record np { name = child; state = st child }

abbrev AllKnown : (Str → ConfState) → StrMap ConfState → List Str → Type 0
AllKnown st states = All (λ child. lookup child states ≡ some (st child))

populate_lem :
    (np : NodeParams) (st : Str → ConfState) (states : StrMap ConfState) (names : List Str)
    (coll : List NodeParams)
    → AllKnown st states names
    → populate np states names coll ≡ coll ++ map (shown np st) names
unfolding populate push_child
populate_lem np st states [] coll h = sym (append-nil coll)
populate_lem np st states (x ∷ xs) coll h =
    ap (λ o. populate np states xs (push_child np x coll o)) h.0
    ∙ populate_lem np st states xs (coll ++ shown np st x ∷ []) h.1
    ∙ append_assoc coll (shown np st x ∷ []) (map (shown np st) xs)

-- All that is in a list is known in a longer one.
AllKnown_lem :
    (st : Str → ConfState) (states : StrMap ConfState) (all names : List Str)
    → ((k : Str) → lookup k states ≡ if_known st k all)
    → ((k : Str) → known k names ≡ true → known k all ≡ true)
    → AllKnown st states names
unfolding known if_known
AllKnown_lem st states all [] h s = tt
AllKnown_lem st states all (x ∷ xs) h s = (
  h x ∙ rw (s x (rw (str_eq_refl x))),
  AllKnown_lem st states all xs h (λ k e. s k (ground (arith, e))),
)

-- The children that are shown for a node, behind those that are there: of a leaf, multi or tag node
-- its running values and then those of its candidate values that were not seen, each with the state
-- of its path; of a container the children of its template, each with the state that the candidate
-- and the running tree give it; and of no other node. Each is enabled.
pub parse_value_and_state_lem :
    (c : Configd) (cpath : Str) (p : TemplateParams)
    → (np : NodeParams) × (np.disabled_state ≡ k_enable)
      × ((parse_value_and_state c cpath p).children_coll
          ≡ p.children_coll
            ++ map (shown np (child_state c cpath p.node_type)) (child_names c cpath p.node_type))
unfolding parse_value_and_state
parse_value_and_state_lem c cpath p =
    let ch = collect c cpath p.node_type (empty_children c cpath) in
    let st = child_state c cpath p.node_type in
    let (q, r, s) = collect-Extends c cpath p.node_type in
    (
      ch.np,
      s,
      populate_lem ch.np st ch.state_coll ch.value_coll p.children_coll
            (AllKnown_lem st ch.state_coll ch.value_coll ch.value_coll r (λ k e. e))
          ∙ ap (λ names. p.children_coll ++ map (shown ch.np st) names) q,
    )
