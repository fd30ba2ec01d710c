-- ===== src/DependencyManager/Check.antt =====
-- core/dependency_manager/dependency_manager.go: GetNodes, generateDependencyMap and CheckAcyclicity.
pub mod Edges
use containerlab.DependencyManager.Acyclic.{Graph, is_acyclic}
use containerlab.DependencyManager.Node.{DependerNodeStage, NodeConfig, Manager}
use containerlab.Base.{
  ◌+◌, String, List, [], ◌∷◌, ◌++◌, map, if◌then◌else◌, Error, Outcome, ok, fail, ◌>>=◌, deref,
}
use containerlab.Base.GoMap.{GoMap}

-- GetNodes, with the configurations.
unfoldable pub get_nodes : Manager → GoMap NodeConfig
get_nodes [] = []
get_nodes ((name, node) ∷ dm) = (name, node.config) ∷ get_nodes dm

-- The names of the dependers of a node, over all its stages.
unfoldable pub depender_names : GoMap (List DependerNodeStage) → List String
depender_names [] = []
depender_names ((stage, nss) ∷ m) = map (λ ns. ns.depender) nss ++ depender_names m

unfoldable pub generate_dependency_map : Manager → Graph
unfolding depender_names
generate_dependency_map [] = []
generate_dependency_map ((name, node) ∷ dm) =
    (name, depender_names node.depender) ∷ generate_dependency_map dm

-- CheckAcyclicity. The manager stays as it is. `is_acyclic` always has an answer.
unfoldable pub check_acyclicity : Manager → Outcome Manager
unfolding generate_dependency_map is_acyclic
check_acyclicity dm = do
  acyclic ← deref (is_acyclic (generate_dependency_map dm))
  if acyclic then ok dm else fail Error.cyclic_dependencies
