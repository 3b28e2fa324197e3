-- ===== src/Mode/Index.antt =====
-- The loop of ServiceMode::service_index (src/server/servicemode.cc).
use vyatta_rest.Prelude.{
  ℕ, zero, suc, ◌≤◌, ◌≡◌, refl, true, List, [], ◌∷◌, ◌++◌, Option, none, some, length, All, arith,
}
use vyatta_rest.Text.{Str, codes}
use vyatta_rest.Outcome.{done, no_fuel}
use vyatta_rest.Json.{Json, add_array}
use vyatta_rest.Rest.Keys.{service_command_dir}
use vyatta_rest.Mode.Service.{Tree, index_loop}

abbrev pub template : Tree → Str → Option Str
template tree name = tree.help (service_command_dir ++ (codes "/" ++ name))

abbrev pub HasTemplate : Tree → Str → Type 0
HasTemplate tree name = (help : Str) × (template tree name ≡ some help)

-- The entry of a child with its help text.
abbrev pub entry : Str → Str → Str
entry name help =
    codes "{\"id\":\"" ++ (name ++ (codes "\",\"description\":\"" ++ (help ++ codes "\"}")))

-- The children with their help texts, added to the array one by one.
abbrev pub listed : (tree : Tree) (names : List Str) → All (HasTemplate tree) names → Json → Json
listed tree [] h j = j
listed tree (name ∷ names) h j =
    listed tree names h.1 (add_array (codes "services") (entry name h.0.0) true j)

index_loop_done :
    (tree : Tree) (names : List Str) (h : All (HasTemplate tree) names) (fuel : ℕ) (j : Json)
    → suc (length names) ≤ fuel
    → index_loop tree fuel names j ≡ done (listed tree names h j)
unfolding index_loop
index_loop_done tree names h zero j le = absurd (omega arith)
index_loop_done tree [] h (suc fuel) j le = refl
index_loop_done tree (name ∷ names) h (suc fuel) j le =
    rw (index_loop, h.0.1)
      (index_loop_done tree names h.1 fuel (add_array (codes "services") (entry name h.0.0) true j)
        (omega arith))

index_loop_stuck :
    (tree : Tree) (name : Str) (names : List Str)
    → template tree name ≡ none
    → (fuel : ℕ) (j : Json) → index_loop tree fuel (name ∷ names) j ≡ no_fuel
unfolding index_loop
index_loop_stuck tree name names h zero j = refl
index_loop_stuck tree name names h (suc fuel) j =
    rw (index_loop, h) (index_loop_stuck tree name names h fuel j)

index_loop_reaches :
    (tree : Tree) (before : List Str) (h : All (HasTemplate tree) before) (name : Str)
    (after : List Str)
    → template tree name ≡ none
    → (fuel : ℕ) (j : Json) → index_loop tree fuel (before ++ name ∷ after) j ≡ no_fuel
unfolding index_loop
index_loop_reaches tree [] h name after e fuel j = index_loop_stuck tree name after e fuel j
index_loop_reaches tree (x ∷ before) h name after e zero j = refl
index_loop_reaches tree (x ∷ before) h name after e (suc fuel) j =
    rw (index_loop, h.0.1)
      (index_loop_reaches tree before h.1 name after e fuel
        (add_array (codes "services") (entry x h.0.0) true j))

-- Where every child of the service directory has a template, one round for each child and one more
-- finish the loop, and the array has the entries of all children in order. Where a child has none,
-- and those before it have one, the loop does not end after any number of rounds.
pub index_loop_lem :
    (tree : Tree) (names : List Str) (h : All (HasTemplate tree) names)
    → ((fuel : ℕ) (j : Json)
        → suc (length names) ≤ fuel
        → index_loop tree fuel names j ≡ done (listed tree names h j))
      × ((name : Str) (after : List Str)
          → template tree name ≡ none
          → (fuel : ℕ) (j : Json) → index_loop tree fuel (names ++ name ∷ after) j ≡ no_fuel)
index_loop_lem tree names h = (index_loop_done tree names h, index_loop_reaches tree names h)
