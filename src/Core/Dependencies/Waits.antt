-- ===== src/Core/Dependencies/Waits.antt =====
-- Which stage of which node waits for which, over the planned dependencies.
use containerlab.Types.Stages.{
  WaitFor, Stages, contains, wait_for_create, wait_for_create_links, wait_for_configure,
  wait_for_healthy, wait_for_exit,
}
use containerlab.Types.Stages.Merging.{
  StageName, creating, linking, configuring, being_healthy, exiting, field_at, waits,
}
use containerlab.DependencyManager.Node.{NodeConfig}
use containerlab.DependencyManager.Node.History.{Dependency, finished}
use containerlab.DependencyManager.Node.Signals.{all_finished}
use containerlab.Core.Dependencies.{has_static_address, static_ip_nodes, dyn_ip_nodes}
use containerlab.Core.Dependencies.StaticFirst.{on_static, static_dynamic}
use containerlab.Core.Dependencies.Declared.{
  of_entries, of_lists, wait_lists, wait_for_dependencies,
}
use containerlab.Core.Dependencies.Namespaces.{owner_of, on_owner, namespace_dependencies}
use containerlab.Base.{
  String, ◌≡◌, refl, ◌∙◌, inl, inr, Bool, true, false, ◌&&◌, ◌||◌, some, List, [], ◌∷◌, ◌++◌, arith,
  str_eq, eq_iff, eq_refl, Bool-cases,
}
use containerlab.Base.Lists.{elem}
use containerlab.Base.GoMap.{GoMap, lookup, keys}

-- Does stage s of node n wait for stage p of node d?
abbrev pub waits_at : String → String → String → String → List Dependency → Bool
waits_at n s d p [] = false
waits_at n s d p (e ∷ deps) =
    ((str_eq d e.dependee && str_eq p e.stage)
      && (str_eq n e.depender.depender && str_eq s e.depender.stage))
    || waits_at n s d p deps

pub waits_at-append :
    (n s d p : String) (xs ys : List Dependency)
    → waits_at n s d p (xs ++ ys) ≡ (waits_at n s d p xs || waits_at n s d p ys)
waits_at-append n s d p [] ys = refl
waits_at-append n s d p (x ∷ xs) ys = ground (arith, waits_at-append n s d p xs ys)

pub finished_of_waits_at :
    (n s d p : String) (deps : List Dependency) (ds : List (String × String))
    → all_finished n s deps ds ≡ true
    → waits_at n s d p deps ≡ true
    → finished d p ds ≡ true
finished_of_waits_at n s d p [] ds a w = cc
finished_of_waits_at n s d p (e ∷ deps) ds a w = ground (
  arith,
  finished_of_waits_at n s d p deps ds,
  eq_iff d e.dependee,
  eq_iff p e.stage,
  eq_iff n e.depender.depender,
  eq_iff s e.depender.stage,
)

-- The planned dependencies.
waits_at-on_static :
    (b a : String) (statics : List String)
    → elem a statics ≡ true
    → waits_at b wait_for_create a wait_for_create (on_static b statics) ≡ true
waits_at-on_static b a [] e = cc
waits_at-on_static b a (x ∷ statics) e =
    ground (arith, waits_at-on_static b a statics, eq_refl b, eq_refl "create")

pub waits_at-static_dynamic :
    (b a : String) (dyns statics : List String)
    → elem b dyns ≡ true
    → elem a statics ≡ true
    → waits_at b wait_for_create a wait_for_create (static_dynamic dyns statics) ≡ true
waits_at-static_dynamic b a [] statics e f = cc
waits_at-static_dynamic b a (x ∷ dyns) statics e f =
    waits_at-append b wait_for_create a wait_for_create (on_static x statics)
      (static_dynamic dyns statics)
    ∙ elim (Bool-cases (str_eq b x)) [
      | inl same ↦ rw (← (eq_iff b x).0 same, waits_at-on_static b a statics f) refl
      | inr other ↦ ground (arith, waits_at-static_dynamic b a dyns statics (ground arith) f)
    ]

pub elem-static_ip_nodes :
    (a : String) (config : NodeConfig) (nodes : GoMap NodeConfig)
    → lookup a nodes ≡ some config
    → has_static_address config ≡ true
    → elem a (static_ip_nodes nodes) ≡ true
unfolding static_ip_nodes lookup
elem-static_ip_nodes a config [] l h = cc
elem-static_ip_nodes a config ((k, c) ∷ nodes) l h = elim (Bool-cases (str_eq k a)) [
  | inl same ↦
      let e : c ≡ config = ground (arith, l, same) in
      rw (e, h) (ground (arith, eq_iff k a, eq_iff a k, same))
  | inr other ↦ ground (arith, elem-static_ip_nodes a config nodes (ground (arith, l, other)) h)
]

pub elem-dyn_ip_nodes :
    (b : String) (config : NodeConfig) (nodes : GoMap NodeConfig)
    → lookup b nodes ≡ some config
    → has_static_address config ≡ false
    → elem b (dyn_ip_nodes nodes) ≡ true
unfolding dyn_ip_nodes lookup
elem-dyn_ip_nodes b config [] l h = cc
elem-dyn_ip_nodes b config ((k, c) ∷ nodes) l h = elim (Bool-cases (str_eq k b)) [
  | inl same ↦
      let e : c ≡ config = ground (arith, l, same) in
      rw (e, h) (ground (arith, eq_iff k b, eq_iff b k, same))
  | inr other ↦ ground (arith, elem-dyn_ip_nodes b config nodes (ground (arith, l, other)) h)
]

-- The name of a stage.
abbrev pub name_of : StageName → String
name_of creating = wait_for_create
name_of linking = wait_for_create_links
name_of configuring = wait_for_configure
name_of being_healthy = wait_for_healthy
name_of exiting = wait_for_exit

waits_at-of_entries :
    (n s : String) (w : WaitFor) (ws : List WaitFor)
    → contains ws w ≡ true
    → waits_at n s w.node w.stage (of_entries n s ws) ≡ true
unfolding contains
waits_at-of_entries n s w [] e = cc
waits_at-of_entries n s w (v ∷ ws) e = ground (
  arith,
  waits_at-of_entries n s w ws,
  eq_refl n,
  eq_refl s,
  eq_iff w.node v.node,
  eq_iff v.node w.node,
  eq_iff w.stage v.stage,
  eq_iff v.stage w.stage,
)

pub waits_at-of_lists :
    (n s : String) (w : WaitFor) (m : GoMap (List WaitFor)) (ws : List WaitFor)
    → lookup s m ≡ some ws
    → contains ws w ≡ true
    → waits_at n s w.node w.stage (of_lists n m) ≡ true
unfolding lookup
waits_at-of_lists n s w [] ws l e = cc
waits_at-of_lists n s w ((k, vs) ∷ m) ws l e =
    waits_at-append n s w.node w.stage (of_entries n k vs) (of_lists n m)
    ∙ elim (Bool-cases (str_eq k s)) [
      | inl same ↦
          let f : vs ≡ ws = ground (arith, l, same) in
          rw ((eq_iff k s).0 same, f, waits_at-of_entries n s w ws e) refl
      | inr other ↦ ground (arith, waits_at-of_lists n s w m ws (ground (arith, l, other)) e)
    ]

pub lookup-wait_lists :
    (x : StageName) (s : Stages) → lookup (name_of x) (wait_lists s) ≡ some (waits (field_at x s))
unfolding lookup
lookup-wait_lists creating s = refl
lookup-wait_lists linking s = refl
lookup-wait_lists configuring s = refl
lookup-wait_lists being_healthy s = refl
lookup-wait_lists exiting s = refl

pub waits_at-wait_for :
    (n s : String) (w : WaitFor) (config : NodeConfig) (nodes : GoMap NodeConfig)
    → lookup n nodes ≡ some config
    → waits_at n s w.node w.stage (of_lists n (wait_lists config.stages)) ≡ true
    → waits_at n s w.node w.stage (wait_for_dependencies nodes) ≡ true
unfolding lookup
waits_at-wait_for n s w config [] l e = cc
waits_at-wait_for n s w config ((k, c) ∷ nodes) l e =
    waits_at-append n s w.node w.stage (of_lists k (wait_lists c.stages))
      (wait_for_dependencies nodes)
    ∙ elim (Bool-cases (str_eq k n)) [
      | inl same ↦
          let f : c ≡ config = ground (arith, l, same) in rw ((eq_iff k n).0 same, f, e) refl
      | inr other ↦
          ground (arith, waits_at-wait_for n s w config nodes (ground (arith, l, other)) e)
    ]

pub waits_at-namespace :
    (n o : String) (config : NodeConfig) (all nodes : GoMap NodeConfig)
    → lookup n nodes ≡ some config
    → owner_of config ≡ some o
    → elem o (keys all) ≡ true
    → waits_at n wait_for_create o wait_for_create (namespace_dependencies all nodes) ≡ true
unfolding lookup
waits_at-namespace n o config all [] l e k = cc
waits_at-namespace n o config all ((j, c) ∷ nodes) l e k =
    waits_at-append n wait_for_create o wait_for_create (on_owner all j (owner_of c))
      (namespace_dependencies all nodes)
    ∙ elim (Bool-cases (str_eq j n)) [
      | inl same ↦
          let f : c ≡ config = ground (arith, l, same) in
          rw ((eq_iff j n).0 same, f, e, k) (ground (arith, eq_refl n, eq_refl o, eq_refl "create"))
      | inr other ↦
          ground (arith, waits_at-namespace n o config all nodes (ground (arith, l, other)) e k)
    ]
