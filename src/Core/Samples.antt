-- ===== src/Core/Samples.antt =====
-- Small labs, and the theorems about their dependencies at them.
use containerlab.Types.Stages.{WaitFor, Stages, new_stages, contains}
use containerlab.Types.Stages.Merging.{
  IsComplete, creating, linking, configuring, being_healthy, exiting,
}
use containerlab.Types.Text.{split_n2}
use containerlab.DependencyManager.Node.{
  NodeConfig, DependencyNode, Manager, signal_dependers, may_enter,
}
use containerlab.DependencyManager.Node.Views.{has_wg, is_known}
use containerlab.DependencyManager.Node.History.{Accounts, finished}
use containerlab.DependencyManager.Node.Signals.{signal_dependers-Accounts}
use containerlab.Core.Dependencies.{create_nodes, static_ip_nodes, dyn_ip_nodes}
use containerlab.Core.Dependencies.Planned.{
  Refused, Panics, Cyclic, Created, planned, create_nodes_lem,
}
use containerlab.Core.Dependencies.Recording.{IsRankedBy, Records}
use containerlab.Core.Dependencies.Order.{static_first, declared_first, owner_first}
use containerlab.Base.{
  ℕ, String, ◌≡◌, refl, sym, ap, subst, ◌⊎◌, inl, inr, true, Option, none, some, [], ◌∷◌, arith,
  str_eq, eq_iff, if◌then◌else◌, Error, Outcome, ok, fail, panic, is_ok,
}
use containerlab.Base.GoMap.{GoMap, lookup, insert}

abbrev node : String → String → Stages → NodeConfig
node mode address stages = record {
  network_mode = mode;
  mgmt_ipv4_address = address;
  mgmt_ipv6_address = "";
  stages = stages;
}

pub new_stages-IsComplete : IsComplete new_stages
new_stages-IsComplete = record {
  at = elim [
    | creating ↦ refl
    | linking ↦ refl
    | configuring ↦ refl
    | being_healthy ↦ refl
    | exiting ↦ refl
  ];
}

abbrev after_a : WaitFor
after_a = record { node = "a"; stage = "create" }

abbrev waiting_stages : Stages
waiting_stages = record new_stages {
  create = some (record { wait_for = after_a ∷ []; execs = [] });
}

pub waiting_stages-IsComplete : IsComplete waiting_stages
waiting_stages-IsComplete = record {
  at = elim [
    | creating ↦ refl
    | linking ↦ refl
    | configuring ↦ refl
    | being_healthy ↦ refl
    | exiting ↦ refl
  ];
}

-- Node a has a static address, and b shares its namespace and declares that it waits for it.
abbrev pub lab : GoMap NodeConfig
lab = ("a", node "" "172.20.20.2" new_stages) ∷ ("b", node "container:a" "" waiting_stages) ∷ []

create_nodes_lem_example : (Refused lab ⊎ Panics lab) ⊎ (Cyclic lab ⊎ Created lab)
create_nodes_lem_example =
    create_nodes_lem lab (new_stages-IsComplete, (waiting_stages-IsComplete, tt)) (refl, (refl, tt))

-- With a network mode of "container" alone.
abbrev bare : GoMap NodeConfig
bare = ("a", node "container" "" new_stages) ∷ []

bare_panics : create_nodes bare ≡ panic
unfolding create_nodes lookup insert
bare_panics = refl

-- A node with a dynamic address that owns the namespace of a static one waits for it, and it for
-- the node.
abbrev crossed : GoMap NodeConfig
crossed = ("a", node "" "" new_stages) ∷ ("b", node "container:a" "172.20.20.2" new_stages) ∷ []

crossed_is_cyclic : create_nodes crossed ≡ fail Error.cyclic_dependencies
unfolding create_nodes lookup insert
crossed_is_cyclic = refl

abbrev pub manager_of : Outcome Manager → Manager
manager_of (ok dm) = dm
manager_of (fail e) = []
manager_of panic = []

-- The manager of the lab, and the manager after a has been created.
abbrev pub made : Manager
made = manager_of (create_nodes lab)

abbrev a_created : Manager
a_created = manager_of (signal_dependers made "a" "create")

pub lab_is_made : is_ok (create_nodes lab) ≡ true
unfolding create_nodes lookup insert
lab_is_made = refl

made-Records : Records lab (planned lab) made
made-Records = elim create_nodes_lem_example [
  | inl (inl (found, e)) ↦ absurd (cc (lab_is_made, e))
  | inl (inr (found, some_bare, e)) ↦ absurd (cc (lab_is_made, e))
  | inr (inl (e, m, cycle)) ↦ absurd (cc (lab_is_made, e))
  | inr (inr (dm, e, a, no_cycle, ranks, ranked)) ↦
      subst (Records lab (planned lab)) (sym (ap manager_of e)) a
]

made-Accounts : Accounts (planned lab) [] made
made-Accounts = made-Records.accounts

pub a_known : is_known made "a" ≡ true
unfolding is_known create_nodes lookup insert
a_known = refl

a_created-Accounts : Accounts (planned lab) (("a", "create") ∷ []) a_created
unfolding static_ip_nodes dyn_ip_nodes
a_created-Accounts =
    let (dm, e, a) =
      signal_dependers-Accounts (planned lab) [] made "a" "create" made-Accounts a_known refl in
    subst (Accounts (planned lab) (("a", "create") ∷ [])) (sym (ap manager_of e)) a

abbrev pub node_of : Option DependencyNode → DependencyNode
node_of (some x) = x
node_of none = record {
  config = node "" "" new_stages;
  stage_wg = [];
  must_wait = [];
  depender = [];
}

-- Node b after a has been created.
abbrev node_b : DependencyNode
node_b = node_of (lookup "b" a_created)

b_is_there : lookup "b" a_created ≡ some node_b
unfolding create_nodes signal_dependers lookup insert
b_is_there = refl

b_has_wg : has_wg a_created "b" "create" ≡ true
unfolding has_wg create_nodes signal_dependers lookup insert
b_has_wg = refl

b_may_enter : may_enter node_b "create" ≡ ok true
unfolding may_enter create_nodes signal_dependers lookup insert
b_may_enter = refl

static_first_example : finished "a" "create" (("a", "create") ∷ []) ≡ true
static_first_example =
    static_first lab (("a", "create") ∷ []) a_created "b" (node "container:a" "" waiting_stages)
      node_b a_created-Accounts (unfold lookup in refl) b_is_there "a"
      (node "" "172.20.20.2" new_stages) b_has_wg b_may_enter refl (unfold lookup in refl) refl

declared_first_example : finished "a" "create" (("a", "create") ∷ []) ≡ true
declared_first_example =
    declared_first lab (("a", "create") ∷ []) a_created "b" (node "container:a" "" waiting_stages)
      node_b a_created-Accounts (unfold lookup in refl) b_is_there creating after_a b_has_wg
      b_may_enter (unfold contains in refl)

owner_first_example : finished "a" "create" (("a", "create") ∷ []) ≡ true
owner_first_example =
    owner_first lab (("a", "create") ∷ []) a_created "b" (node "container:a" "" waiting_stages)
      node_b a_created-Accounts (unfold lookup in refl) b_is_there "a" b_has_wg b_may_enter
      (unfold split_n2 in refl) refl

-- Node a is ranked above all others.
abbrev a_first : String → ℕ
a_first n = if str_eq n "a" then 1 else 0

a_first-IsRankedBy : IsRankedBy a_first (planned lab)
unfolding static_ip_nodes dyn_ip_nodes split_n2
a_first-IsRankedBy d n h = ground (arith, eq_iff d "a", eq_iff n "b", eq_iff n "a", eq_iff "b" "a")
