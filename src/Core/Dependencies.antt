-- ===== src/Core/Dependencies.antt =====
-- core/clab.go and core/deploy.go: the dependencies between the nodes of a lab, as createNodes makes
-- them before the nodes are scheduled. A range over the manager's nodes reads their names and
-- configurations, which adding a dependency does not change.
pub mod Recording
pub mod Starting
pub mod StaticFirst
pub mod Declared
pub mod Namespaces
pub mod Planned
pub mod Waits
pub mod Order
pub mod Progress
use containerlab.Types.Text.{split_n2}
use containerlab.Types.Stages.{WaitFor, get_wait_for, wait_for_create}
use containerlab.DependencyManager.Node.{
  NodeConfig, DependencyNode, Manager, add_node, get_node, add_depender,
}
use containerlab.DependencyManager.Check.{get_nodes, check_acyclicity}
use containerlab.Base.{
  String, Bool, true, false, not, ◌||◌, List, [], ◌∷◌, str_eq, if◌then◌else◌, Error, Outcome, ok,
  fail, panic, ◌>>=◌, deref,
}
use containerlab.Base.GoMap.{GoMap}

-- The loop of createNodes over c.Nodes, a map by the nodes' short names.
unfoldable pub add_nodes : GoMap NodeConfig → Manager → Outcome Manager
unfolding add_node
add_nodes [] dm = ok dm
add_nodes ((name, config) ∷ nodes) dm = do dm' ← add_node dm name config; add_nodes nodes dm'

abbrev pub has_static_address : NodeConfig → Bool
has_static_address config =
    not (str_eq config.mgmt_ipv4_address "") || not (str_eq config.mgmt_ipv6_address "")

-- The first loop of createStaticDynamicDependency.
unfoldable pub static_ip_nodes : GoMap NodeConfig → List String
static_ip_nodes [] = []
static_ip_nodes ((name, config) ∷ nodes) =
    if has_static_address config then name ∷ static_ip_nodes nodes else static_ip_nodes nodes

unfoldable pub dyn_ip_nodes : GoMap NodeConfig → List String
dyn_ip_nodes [] = []
dyn_ip_nodes ((name, config) ∷ nodes) =
    if has_static_address config then dyn_ip_nodes nodes else name ∷ dyn_ip_nodes nodes

-- Its inner loop, for one dynamic node.
unfoldable pub wait_for_static : Manager → String → List String → Outcome Manager
unfolding add_depender
wait_for_static dm dyn_node [] = ok dm
wait_for_static dm dyn_node (static_node ∷ statics) = do
  dm' ← add_depender dm static_node wait_for_create dyn_node wait_for_create
  wait_for_static dm' dyn_node statics

unfoldable pub static_before_dynamic : Manager → List String → List String → Outcome Manager
unfolding wait_for_static
static_before_dynamic dm [] statics = ok dm
static_before_dynamic dm (dyn_node ∷ dyns) statics = do
  dm' ← wait_for_static dm dyn_node statics
  static_before_dynamic dm' dyns statics

unfoldable pub create_static_dynamic_dependency : Manager → Outcome Manager
unfolding static_before_dynamic get_nodes static_ip_nodes dyn_ip_nodes
create_static_dynamic_dependency dm =
    static_before_dynamic dm (dyn_ip_nodes (get_nodes dm)) (static_ip_nodes (get_nodes dm))

-- The dependee of a wait-for entry, with the error of createWaitForDependency.
unfoldable pub find_dependee : Manager → String → Outcome DependencyNode
unfolding get_node
find_dependee dm name = elim (get_node dm name) [
  | ok node ↦ ok node
  | fail e ↦ fail Error.dependee_not_found
  | panic ↦ panic
]

-- The loops of createWaitForDependency, the innermost first.
unfoldable pub wait_for_nodes : Manager → String → String → List WaitFor → Outcome Manager
unfolding find_dependee add_depender
wait_for_nodes dm depender stage [] = ok dm
wait_for_nodes dm depender stage (dependee ∷ dependees) = do
  found ← find_dependee dm dependee.node
  dm' ← add_depender dm dependee.node stage depender dependee.stage
  wait_for_nodes dm' depender stage dependees

unfoldable pub wait_for_stages : Manager → String → GoMap (List WaitFor) → Outcome Manager
unfolding wait_for_nodes
wait_for_stages dm depender [] = ok dm
wait_for_stages dm depender ((stage, dependees) ∷ m) = do
  dm' ← wait_for_nodes dm depender stage dependees
  wait_for_stages dm' depender m

unfoldable pub wait_for_all : Manager → GoMap NodeConfig → Outcome Manager
unfolding wait_for_stages get_wait_for
wait_for_all dm [] = ok dm
wait_for_all dm ((depender, config) ∷ nodes) = do
  m ← get_wait_for config.stages
  dm' ← wait_for_stages dm depender m
  wait_for_all dm' nodes

unfoldable pub create_wait_for_dependency : Manager → Outcome Manager
unfolding wait_for_all get_nodes
create_wait_for_dependency dm = wait_for_all dm (get_nodes dm)

-- The body of the loop of createNamespaceSharingDependency. The second part of the mode is indexed
-- without a test, and a reference to an unknown node is an external dependency.
unfoldable pub share_namespace : Manager → String → NodeConfig → Outcome Manager
unfolding split_n2 get_node add_depender
share_namespace dm name config =
    let (kind, rest) = split_n2 b':' config.network_mode in
    elim (str_eq kind "container") [
      | false ↦ ok dm
      | true ↦ deref rest >>= λ reference. elim (get_node dm reference) [
        | ok node ↦ add_depender dm reference wait_for_create name wait_for_create
        | fail e ↦ ok dm
        | panic ↦ panic
      ]
    ]

unfoldable pub share_namespaces : Manager → GoMap NodeConfig → Outcome Manager
unfolding share_namespace
share_namespaces dm [] = ok dm
share_namespaces dm ((name, config) ∷ nodes) = do
  dm' ← share_namespace dm name config
  share_namespaces dm' nodes

unfoldable pub create_namespace_sharing_dependency : Manager → Outcome Manager
unfolding share_namespaces get_nodes
create_namespace_sharing_dependency dm = share_namespaces dm (get_nodes dm)

-- createNodes, up to the start of the scheduling.
unfoldable pub create_nodes : GoMap NodeConfig → Outcome Manager
unfolding add_nodes create_static_dynamic_dependency create_wait_for_dependency
    create_namespace_sharing_dependency check_acyclicity
create_nodes nodes = do
  dm₀ ← add_nodes nodes []
  dm₁ ← create_static_dynamic_dependency dm₀
  dm₂ ← create_wait_for_dependency dm₁
  dm₃ ← create_namespace_sharing_dependency dm₂
  check_acyclicity dm₃
