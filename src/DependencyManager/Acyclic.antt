-- ===== src/DependencyManager/Acyclic.antt =====
-- core/dependency_manager/dependency_manager.go: isAcyclic, over the map from a node to the nodes
-- that depend on it.
pub mod Rounds
pub mod Ranking
pub mod Pigeonhole
pub mod Cycles
use containerlab.Base.{
  ℕ, zero, suc, String, Bool, true, false, Option, none, some, List, [], ◌∷◌, if◌then◌else◌,
  is_empty,
}
use containerlab.Base.Lists.{length, elem}
use containerlab.Base.GoMap.{GoMap}

abbrev pub Graph : Type 0
Graph = GoMap (List String)

-- The loop that sorts the nodes: those with dependers remain, the others are leaves. A range over a
-- map meets each key once, so that storing an entry adds one.
unfoldable pub remaining : Graph → Graph
remaining [] = []
remaining ((dependee, dependers) ∷ g) =
    if is_empty dependers then remaining g else (dependee, dependers) ∷ remaining g

unfoldable pub leaf_nodes : Graph → List String
leaf_nodes [] = []
leaf_nodes ((dependee, dependers) ∷ g) =
    if is_empty dependers then dependee ∷ leaf_nodes g else leaf_nodes g

-- The loop over the dependers of a node, with the inner loop that looks for a leaf.
unfoldable pub keep_loop : List String → List String → List String
keep_loop leaves [] = []
keep_loop leaves (dep ∷ dependers) =
    if elem dep leaves then keep_loop leaves dependers else dep ∷ keep_loop leaves dependers

-- The last loop: the leaves are taken off the dependers of the remaining nodes.
unfoldable pub cleanup : List String → Graph → Graph
unfolding keep_loop
cleanup leaves [] = []
cleanup leaves ((dependee, dependers) ∷ g) =
    (dependee, keep_loop leaves dependers) ∷ cleanup leaves g

-- One round: the map of the recursive call.
unfoldable pub next_round : Graph → Graph
unfolding cleanup leaf_nodes remaining
next_round g = cleanup (leaf_nodes g) (remaining g)

-- isAcyclic, on fuel for its recursion; `none` means that the fuel ran out.
unfoldable pub is_acyclic_rounds : ℕ → Graph → Option Bool
unfolding next_round
is_acyclic_rounds zero g = none
is_acyclic_rounds (suc fuel) [] = some true
is_acyclic_rounds (suc fuel) (e ∷ g) =
    let rest = is_acyclic_rounds fuel (next_round (e ∷ g)) in
    if is_empty (leaf_nodes (e ∷ g)) then some false else rest

-- Each round but the last removes a node.
unfoldable pub is_acyclic : Graph → Option Bool
unfolding is_acyclic_rounds
is_acyclic g = is_acyclic_rounds (suc (length g)) g
