-- ===== src/Core/Dependencies/Starting.antt =====
-- The loop of createNodes that adds the nodes.
use containerlab.Types.Stages.Merging.{IsComplete}
use containerlab.DependencyManager.Acyclic.Cycles.{edge}
use containerlab.DependencyManager.Node.{NodeConfig, DependencyNode, Manager, add_node}
use containerlab.DependencyManager.Node.Views.{is_known, has_wg}
use containerlab.DependencyManager.Node.Fresh.{
  new_dependency_node_complete, Accounts-nil, Accounts-insert, IsAdded-insert,
}
use containerlab.DependencyManager.Node.History.{Accounts}
use containerlab.Core.Dependencies.{add_nodes}
use containerlab.Core.Dependencies.Recording.{Records, is_known-get_nodes}
use mathlib.Core.List.{append-nil, append_assoc}
use containerlab.Types.Stages.{get_wait_for_stages}
use containerlab.DependencyManager.Check.{get_nodes, depender_names, generate_dependency_map}
use containerlab.Base.{
  String, ◌≡◌, refl, sym, ap, ◌∙◌, true, false, ◌&&◌, ◌||◌, [], ◌∷◌, ◌++◌, arith, str_eq, eq_iff,
  eq_refl, ok,
}
use containerlab.Base.Lists.{elem, Distinct}
use containerlab.Base.GoMap.{GoMap, lookup, insert, keys}

-- The stages of every node are all there.
abbrev pub AreComplete : GoMap NodeConfig → Type 0
AreComplete [] = Unit
AreComplete ((name, config) ∷ nodes) = IsComplete config.stages × AreComplete nodes

get_nodes-append :
    (dm : Manager) (name : String) (node : DependencyNode)
    → elem name (keys (get_nodes dm)) ≡ false
    → get_nodes (insert name node dm) ≡ get_nodes dm ++ (name, node.config) ∷ []
unfolding get_nodes insert
get_nodes-append [] name node h = refl
get_nodes-append ((k, x) ∷ dm) name node h =
    let other : str_eq k name ≡ false = ground (arith, h, eq_iff k name, eq_iff name k) in
    rw other (ap (λ l. (k, x.config) ∷ l) (get_nodes-append dm name node (ground arith)))

edge-append :
    (a b : String) (dm : Manager) (name : String) (node : DependencyNode)
    → depender_names node.depender ≡ []
    → elem name (keys (get_nodes dm)) ≡ false
    → edge a b (generate_dependency_map (insert name node dm))
      ≡ edge a b (generate_dependency_map dm)
unfolding generate_dependency_map get_nodes insert
edge-append a b [] name node e h = rw e (ground arith)
edge-append a b ((k, x) ∷ dm) name node e h =
    let other : str_eq k name ≡ false = ground (arith, h, eq_iff k name, eq_iff name k) in
    rw other (
      ap (λ t. (str_eq a k && elem b (depender_names x.depender)) || t)
        (edge-append a b dm name node e (ground arith)))

-- A manager without dependencies.
record Starts (dm : Manager) : Type 0 where
  accounts : Accounts [] [] dm
  no_edges : (a b : String) → edge a b (generate_dependency_map dm) ≡ false
  wait_groups :
      (n s : String)
      → is_known dm n ≡ true
      → elem s get_wait_for_stages ≡ true
      → has_wg dm n s ≡ true

Starts-nil : Starts []
unfolding generate_dependency_map is_known lookup
Starts-nil = record { accounts = Accounts-nil; no_edges = λ a b. refl; wait_groups = λ n s k e. cc }

add_node-Starts :
    (dm : Manager) (name : String) (config : NodeConfig)
    → IsComplete config.stages
    → elem name (keys (get_nodes dm)) ≡ false
    → Starts dm
    → (dm' : Manager) × (add_node dm name config ≡ ok dm')
      × Starts dm'
      × (get_nodes dm' ≡ get_nodes dm ++ (name, config) ∷ [])
unfolding add_node depender_names
add_node-Starts dm name config c new st =
    let (node, e, same, wgs, ds) = new_dependency_node_complete config c in
    let added = IsAdded-insert dm name node wgs in
    (
      insert name node dm,
      rw (e, add_node),
      record {
        accounts = Accounts-insert dm name node wgs ds st.accounts;
        no_edges = λ a b. edge-append a b dm name node (rw ds refl) new ∙ st.no_edges a b;
        wait_groups =
            λ n s k i. ground (arith, added.known n, added.stages n s, st.wait_groups n s);
      },
      get_nodes-append dm name node new
          ∙ ap (λ (x : NodeConfig). get_nodes dm ++ (name, x) ∷ []) same,
    )

elem-keys-snoc :
    (n : String) (m : GoMap NodeConfig) (name : String) (config : NodeConfig)
    → elem n (keys (m ++ (name, config) ∷ [])) ≡ (elem n (keys m) || str_eq n name)
elem-keys-snoc n [] name config = ground arith
elem-keys-snoc n ((k, x) ∷ m) name config = ground (arith, elem-keys-snoc n m name config)

add_nodes-Starts :
    (nodes : GoMap NodeConfig) (dm : Manager)
    → AreComplete nodes
    → Distinct (keys nodes)
    → ((n : String) → elem n (keys nodes) ≡ true → elem n (keys (get_nodes dm)) ≡ false)
    → Starts dm
    → (dm' : Manager) × (add_nodes nodes dm ≡ ok dm')
      × Starts dm'
      × (get_nodes dm' ≡ get_nodes dm ++ nodes)
unfolding add_nodes
add_nodes-Starts [] dm c d apart st = (dm, refl, st, sym (append-nil (get_nodes dm)))
add_nodes-Starts ((name, config) ∷ nodes) dm (c, cs) (d, ds) apart st =
    let (dm₁, e₁, s₁, g₁) =
      add_node-Starts dm name config c (apart name (ground (arith, eq_refl name))) st in
    let (dm₂, e₂, s₂, g₂) = add_nodes-Starts nodes dm₁ cs ds (λ n h. still_apart n h (g₁)) s₁ in
    (
      dm₂,
      rw e₁ e₂,
      s₂,
      g₂
          ∙ ap (λ (m : GoMap NodeConfig). m ++ nodes) g₁
          ∙ append_assoc (get_nodes dm) ((name, config) ∷ []) nodes,
    )
  where
    still_apart :
        {m : GoMap NodeConfig} (n : String)
        → elem n (keys nodes) ≡ true
        → m ≡ get_nodes dm ++ (name, config) ∷ []
        → elem n (keys m) ≡ false
    still_apart n h g =
        ap (λ (m : GoMap NodeConfig). elem n (keys m)) g
        ∙ ground (
          arith,
          elem-keys-snoc n (get_nodes dm) name config,
          apart n (ground arith),
          eq_iff n name,
        )

-- Distinct nodes with complete stages are all added, without dependencies.
pub add_nodes-Records :
    (nodes : GoMap NodeConfig)
    → AreComplete nodes
    → Distinct (keys nodes)
    → (dm : Manager) × (add_nodes nodes [] ≡ ok dm) × Records nodes [] dm
unfolding get_nodes
add_nodes-Records nodes c d =
    let (dm, e, s, g) = add_nodes-Starts nodes [] c d (λ n h. refl) Starts-nil in
    (
      dm,
      e,
      record {
        accounts = s.accounts;
        same_nodes = g;
        edges = s.no_edges;
        wait_groups = λ n p i j.
            s.wait_groups n p
              (is_known-get_nodes dm n ∙ ap (λ (m : GoMap NodeConfig). elem n (keys m)) g ∙ i) j;
        marked = λ d p h. cc;
      },
    )
