-- ===== src/Core/Dependencies/Order.antt =====
-- What the planned dependencies mean for the order in which nodes go through their stages.
use containerlab.Core.Dependencies.Waits.{
  waits_at, name_of, finished_of_waits_at, waits_at-append, waits_at-static_dynamic,
  elem-static_ip_nodes, elem-dyn_ip_nodes, waits_at-of_lists, lookup-wait_lists, waits_at-wait_for,
  waits_at-namespace,
}
use containerlab.Types.Stages.{WaitFor, contains, wait_for_create}
use containerlab.Types.Stages.Merging.{StageName, field_at, waits}
use containerlab.DependencyManager.Node.{NodeConfig, DependencyNode, Manager, may_enter}
use containerlab.DependencyManager.Node.Views.{has_wg}
use containerlab.DependencyManager.Node.History.{Accounts, finished}
use containerlab.DependencyManager.Node.Signals.{all_finished, may_enter_lem}
use containerlab.Core.Dependencies.{has_static_address, static_ip_nodes, dyn_ip_nodes}
use containerlab.Core.Dependencies.StaticFirst.{static_dynamic_dependencies}
use containerlab.Core.Dependencies.Declared.{wait_lists, wait_for_dependencies}
use containerlab.Core.Dependencies.Namespaces.{owner_of, namespace_dependencies}
use containerlab.Core.Dependencies.Planned.{planned}
use containerlab.Base.{String, ◌≡◌, refl, ap, ◌∙◌, true, false, ◌||◌, some, List, ◌++◌, arith, ok}
use containerlab.Base.Lists.{elem}
use containerlab.Base.GoMap.{GoMap, lookup, keys}

-- A node with a configuration, in a manager that accounts for the planned dependencies of a lab after
-- the stages `ds` have been finished.
module _ (nodes : GoMap NodeConfig) (ds : List (String × String)) (dm : Manager) (n : String)
    (config : NodeConfig) (node : DependencyNode) (a : Accounts (planned nodes) ds dm)
    (c : lookup n nodes ≡ some config) (l : lookup n dm ≡ some node) where
  entered :
      (s : String)
      → has_wg dm n s ≡ true
      → may_enter node s ≡ ok true
      → all_finished n s (planned nodes) ds ≡ true
  entered s h e = ground (arith, may_enter_lem (planned nodes) ds dm n s node a l h, e)

  planned-waits_at :
      (s d p : String)
      → waits_at n s d p (planned nodes) ≡ (
          (waits_at n s d p (static_dynamic_dependencies nodes)
            || waits_at n s d p (wait_for_dependencies nodes))
          || waits_at n s d p (namespace_dependencies nodes nodes))
  planned-waits_at s d p =
      waits_at-append n s d p (static_dynamic_dependencies nodes ++ wait_for_dependencies nodes)
        (namespace_dependencies nodes nodes)
      ∙ ap (λ x. x || waits_at n s d p (namespace_dependencies nodes nodes))
          (waits_at-append n s d p (static_dynamic_dependencies nodes)
            (wait_for_dependencies nodes))

  -- In a lab whose manager accounts for the planned dependencies, a node without a static management
  -- address may be created only when every node with one has been created.
  pub static_first :
      (m : String) (other : NodeConfig)
      → has_wg dm n wait_for_create ≡ true
      → may_enter node wait_for_create ≡ ok true
      → has_static_address config ≡ false
      → lookup m nodes ≡ some other
      → has_static_address other ≡ true
      → finished m wait_for_create ds ≡ true
  static_first m other h e dyn lm static =
      finished_of_waits_at n wait_for_create m wait_for_create (planned nodes) ds
        (entered wait_for_create h e)
        (planned-waits_at wait_for_create m wait_for_create
          ∙ rw
              (waits_at-static_dynamic n m (dyn_ip_nodes nodes) (static_ip_nodes nodes)
                (elem-dyn_ip_nodes n config nodes c dyn)
                (elem-static_ip_nodes m other nodes lm static))
              refl)

  -- In a lab whose manager accounts for the planned dependencies, a node may enter a stage only when
  -- each stage of a node that the wait-for list of this stage names has been finished.
  pub declared_first :
      (x : StageName) (w : WaitFor)
      → has_wg dm n (name_of x) ≡ true
      → may_enter node (name_of x) ≡ ok true
      → contains (waits (field_at x config.stages)) w ≡ true
      → finished w.node w.stage ds ≡ true
  declared_first x w h e i =
      let one = waits_at-wait_for n (name_of x) w config nodes c (
        waits_at-of_lists n (name_of x) w (wait_lists config.stages)
          (waits (field_at x config.stages)) (lookup-wait_lists x config.stages) i) in
      finished_of_waits_at n (name_of x) w.node w.stage (planned nodes) ds (entered (name_of x) h e)
        (planned-waits_at (name_of x) w.node w.stage ∙ ground (arith, one))

  -- In a lab whose manager accounts for the planned dependencies, a node that shares the network
  -- namespace of another node of the lab may be created only when that node has been created.
  pub owner_first :
      (o : String)
      → has_wg dm n wait_for_create ≡ true
      → may_enter node wait_for_create ≡ ok true
      → owner_of config ≡ some o
      → elem o (keys nodes) ≡ true
      → finished o wait_for_create ds ≡ true
  owner_first o h e s k =
      finished_of_waits_at n wait_for_create o wait_for_create (planned nodes) ds
        (entered wait_for_create h e)
        (planned-waits_at wait_for_create o wait_for_create
          ∙ ground (arith, waits_at-namespace n o config nodes nodes c s k))
