-- ===== src/DependencyManager/Node/Fresh.antt =====
-- AddNode: the dependency nodes before any dependency is recorded.
use containerlab.Types.Stages.{
  get_wait_for_stages, StageBase, has_commands, wait_for_create_links, wait_for_configure,
  wait_for_healthy,
}
use containerlab.Types.Stages.Merging.{linking, configuring, being_healthy, IsComplete}
use containerlab.DependencyManager.Node.{
  NodeConfig, DependencyNode, Manager, DependerNodeStage, for_all_stages, new_dependency_node,
  add_node, get_stage_wg,
}
use containerlab.DependencyManager.Node.Views.{wg_of, dependers_of, is_known, has_wg}
use containerlab.DependencyManager.Node.History.{Accounts}
use containerlab.Base.{
  ℕ, String, ◌≡◌, refl, true, ◌||◌, Option, none, some, List, [], ◌∷◌, map, arith, str_eq, eq_iff,
  if◌then◌else◌, is_some, ok,
}
use containerlab.Base.Lists.{elem}
use containerlab.Base.GoMap.{lookup, insert, lookup-insert}

pub Accounts-nil : Accounts [] [] []
unfolding dependers_of wg_of lookup
Accounts-nil = record { lists = λ d p. refl; counters = λ n s. refl; known = tt }

pub lookup-for_all_stages {ℓ} :
    {V : Type ℓ} (v : V) (l : List String) (s : String)
    → lookup s (map (λ stage. (stage, v)) l) ≡ (if elem s l then some v else none)
unfolding lookup
lookup-for_all_stages v [] s = refl
lookup-for_all_stages v (x ∷ l) s =
    ground (arith, lookup-for_all_stages v l s, eq_iff x s, eq_iff s x)

-- What AddNode makes of a manager.
pub record IsAdded (dm dm' : Manager) (name : String) : Type 0 where
  pub known : (n : String) → is_known dm' n ≡ (str_eq n name || is_known dm n)
  pub stages :
      (n s : String)
      → has_wg dm' n s ≡ (if str_eq n name then elem s get_wait_for_stages else has_wg dm n s)

known_stage : (o : Option StageBase) → is_some o ≡ true → (b : StageBase) × (o ≡ some b)
known_stage none h = cc
known_stage (some b) h = (b, refl)

pub new_dependency_node_complete :
    (config : NodeConfig)
    → IsComplete config.stages
    → (node : DependencyNode) × (new_dependency_node config ≡ ok node)
      × (node.config ≡ config)
      × (node.stage_wg ≡ for_all_stages 0)
      × (node.depender ≡ for_all_stages [])
unfolding new_dependency_node
new_dependency_node_complete config c =
    let (x, ex) = known_stage config.stages.create_links (c.at linking) in
    let (y, ey) = known_stage config.stages.configure (c.at configuring) in
    let (z, ez) = known_stage config.stages.healthy (c.at being_healthy) in
    (
      record {
        config = config;
        stage_wg = for_all_stages 0;
        must_wait =
            (wait_for_create_links, has_commands x.execs)
            ∷ (wait_for_configure, has_commands y.execs)
            ∷ (wait_for_healthy, has_commands z.execs)
            ∷ [];
        depender = for_all_stages [];
      },
      rw (ex, ey, ez),
      refl,
      refl,
      refl,
    )

module _ (dm : Manager) (name : String) (node : DependencyNode)
    (wgs : node.stage_wg ≡ for_all_stages 0) where
  pub IsAdded-insert : IsAdded dm (insert name node dm) name
  unfolding is_known has_wg
  IsAdded-insert = record {
    known = λ n. ground (arith, lookup-insert name n node dm, eq_iff name n, eq_iff n name);
    stages = λ n s. ground (
      arith,
      lookup-insert name n node dm,
      eq_iff name n,
      eq_iff n name,
      wgs,
      lookup-for_all_stages {V = ℕ} 0 get_wait_for_stages s,
    );
  }

  pub Accounts-insert :
      node.depender ≡ for_all_stages [] → Accounts [] [] dm → Accounts [] [] (insert name node dm)
  unfolding dependers_of wg_of get_stage_wg
  Accounts-insert ds a = record {
    lists = λ d p. ground (
      arith,
      lookup-insert name d node dm,
      eq_iff name d,
      a.lists d p,
      ds,
      lookup-for_all_stages {V = List DependerNodeStage} [] get_wait_for_stages p,
    );
    counters = λ n s. ground (
      arith,
      lookup-insert name n node dm,
      eq_iff name n,
      a.counters n s,
      wgs,
      lookup-for_all_stages {V = ℕ} 0 get_wait_for_stages s,
    );
    known = tt;
  }

-- A node whose stages are all there can be added to a manager without dependencies. It gets a wait
-- group for each of the five stages and no dependers; the other nodes stay as they are.
pub add_node-Accounts :
    (dm : Manager) (name : String) (config : NodeConfig)
    → IsComplete config.stages
    → Accounts [] [] dm
    → (dm' : Manager) × (add_node dm name config ≡ ok dm')
      × Accounts [] [] dm'
      × IsAdded dm dm' name
unfolding add_node
add_node-Accounts dm name config c a =
    let (node, e, same, wgs, ds) = new_dependency_node_complete config c in
    (
      insert name node dm,
      rw (e, add_node),
      Accounts-insert dm name node wgs ds a,
      IsAdded-insert dm name node wgs,
    )
