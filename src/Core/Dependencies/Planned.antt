-- ===== src/Core/Dependencies/Planned.antt =====
-- createNodes: which dependencies it plans, and when it refuses a lab.
use containerlab.DependencyManager.Acyclic.{Graph}
use containerlab.DependencyManager.Acyclic.Ranking.{is_acyclic_iff_IsRanked, AllIn, IsClosedIn}
use containerlab.DependencyManager.Acyclic.Cycles.{
  below_of_edge, edge, Chain, one, more, is_acyclic_iff_no_cycle,
}
use containerlab.DependencyManager.Node.{NodeConfig, Manager}
use containerlab.DependencyManager.Node.History.{Dependency, AreKnown}
use containerlab.DependencyManager.Node.Signals.{is_known_of_has_wg}
use containerlab.DependencyManager.Check.{get_nodes, generate_dependency_map, check_acyclicity}
use containerlab.Core.Dependencies.{create_nodes}
use containerlab.Core.Dependencies.Recording.{
  IsRankedBy, has_dependency, Records, is_known-get_nodes,
}
use containerlab.Core.Dependencies.Starting.{AreComplete, add_nodes-Records}
use containerlab.Core.Dependencies.StaticFirst.{
  static_dynamic_dependencies, create_static_dynamic-Records,
}
use containerlab.Core.Dependencies.Declared.{
  all_found, wait_for_dependencies, create_wait_for-Records,
}
use containerlab.Core.Dependencies.Namespaces.{
  any_bare, namespace_dependencies, create_namespace_sharing-Records,
}
use containerlab.Base.{
  ℕ, String, ◌≡◌, refl, sym, ap, ◌∙◌, subst, ◌⊎◌, inl, inr, true, false, List, [], ◌∷◌, ◌++◌, arith,
  str_eq, eq_iff, eq_refl, Bool-cases, Error, ok, fail, panic,
}
use containerlab.Base.Lists.{elem, Distinct}
use containerlab.Base.GoMap.{GoMap, keys}

-- b waits for a, at some of their stages, over one dependency or more.
pub data WaitsFor (deps : List Dependency) : String → String → Type 0 where
  directly : {a b : String} → has_dependency a b deps ≡ true → WaitsFor deps a b
  further :
      {a b c : String} → WaitsFor deps a b → has_dependency b c deps ≡ true → WaitsFor deps a c

-- The dependencies of a lab: those on static addresses, the declared ones, and those of shared
-- namespaces.
abbrev pub planned : GoMap NodeConfig → List Dependency
planned nodes =
    (static_dynamic_dependencies nodes ++ wait_for_dependencies nodes)
    ++ namespace_dependencies nodes nodes

WaitsFor-of_Chain :
    (deps : List Dependency) (g : Graph) (a b : String)
    → ((x y : String) → edge x y g ≡ has_dependency x y deps)
    → Chain g a b
    → WaitsFor deps a b
WaitsFor-of_Chain deps g a b h (one e) = directly (sym (h a b) ∙ e)
WaitsFor-of_Chain deps g a b h (more {b = m} p e) =
    further (WaitsFor-of_Chain deps g a m h p) (sym (h m b) ∙ e)

Chain-of_WaitsFor :
    (deps : List Dependency) (g : Graph) (a b : String)
    → ((x y : String) → edge x y g ≡ has_dependency x y deps)
    → WaitsFor deps a b
    → Chain g a b
Chain-of_WaitsFor deps g a b h (directly e) = one (h a b ∙ e)
Chain-of_WaitsFor deps g a b h (further {b = m} p e) =
    more (Chain-of_WaitsFor deps g a m h p) (h m b ∙ e)

keys-generate_dependency_map :
    (dm : Manager) → keys (generate_dependency_map dm) ≡ keys (get_nodes dm)
unfolding generate_dependency_map get_nodes
keys-generate_dependency_map [] = refl
keys-generate_dependency_map ((n, node) ∷ dm) = ap (λ l. n ∷ l) (keys-generate_dependency_map dm)

AllIn-of_elem :
    (ks ds : List String) → ((d : String) → elem d ds ≡ true → elem d ks ≡ true) → AllIn ks ds
AllIn-of_elem ks [] h = tt
AllIn-of_elem ks (d ∷ ds) h =
    (h d (ground (arith, eq_refl d)), AllIn-of_elem ks ds (λ x e. h x (ground arith)))

IsClosedIn-of_edge :
    (ks : List String) (g : Graph)
    → ((a b : String) → edge a b g ≡ true → elem b ks ≡ true)
    → IsClosedIn ks g
IsClosedIn-of_edge ks [] h = tt
IsClosedIn-of_edge ks ((n, ds) ∷ g) h = (
  AllIn-of_elem ks ds (λ d e. h n d (ground (arith, eq_refl n))),
  IsClosedIn-of_edge ks g (λ a b e. h a b (ground arith)),
)

-- The dependers are nodes of the lab.
abbrev Depend : GoMap NodeConfig → List Dependency → Type 0
Depend nodes deps = (a b : String) → has_dependency a b deps ≡ true → elem b (keys nodes) ≡ true

-- CheckAcyclicity on a manager that records dependencies between the nodes of a lab.
check_acyclicity-Records :
    (nodes : GoMap NodeConfig) (deps : List Dependency) (dm : Manager)
    → Distinct (keys nodes)
    → Depend nodes deps
    → Records nodes deps dm
    → ((check_acyclicity dm ≡ ok dm)
        × ((m : String) → ¬ WaitsFor deps m m)
        × (r : String → ℕ) × IsRankedBy r deps)
      ⊎ ((check_acyclicity dm ≡ fail Error.cyclic_dependencies) × (m : String) × WaitsFor deps m m)
unfolding check_acyclicity
check_acyclicity-Records nodes deps dm d h r =
    let g = generate_dependency_map dm in
    let same : keys g ≡ keys nodes =
      keys-generate_dependency_map dm ∙ ap (λ (m : GoMap NodeConfig). keys m) r.same_nodes in
    let closed : IsClosedIn (keys g) g =
      IsClosedIn-of_edge (keys g) g (λ a b e. rw same (h a b (sym (r.edges a b) ∙ e))) in
    elim (is_acyclic_iff_no_cycle g (rw same d) closed) [
      | inl (e, no_cycle) ↦
          let (ranks, ranked) = (is_acyclic_iff_IsRanked g (rw same d) closed).0 e in
          inl (
            rw (e, check_acyclicity) refl,
            λ m w. no_cycle m (Chain-of_WaitsFor deps g m m r.edges w),
            ranks,
            λ a b x. below_of_edge ranks g a b ranked (r.edges a b ∙ x),
          )
      | inr (e, m, cycle) ↦
          inr (rw (e, check_acyclicity) refl, m, WaitsFor-of_Chain deps g m m r.edges cycle)
    ]

Depend-of_AreKnown :
    (nodes : GoMap NodeConfig) (deps : List Dependency) (dm : Manager)
    → get_nodes dm ≡ nodes
    → AreKnown dm deps
    → Depend nodes deps
Depend-of_AreKnown nodes [] dm e k a b h = cc
Depend-of_AreKnown nodes (x ∷ deps) dm e (k, w, ks) a b h =
    elim (Bool-cases (str_eq b x.depender.depender)) [
      | inl same ↦
          subst (λ n. elem n (keys nodes) ≡ true) (sym ((eq_iff b x.depender.depender).0 same))
            (ap (λ (m : GoMap NodeConfig). elem x.depender.depender (keys m)) (sym e)
              ∙ sym (is_known-get_nodes dm x.depender.depender)
              ∙ is_known_of_has_wg dm x.depender.depender x.depender.stage w)
      | inr other ↦ Depend-of_AreKnown nodes deps dm e ks a b (ground arith)
    ]

-- What createNodes does with a lab.
abbrev pub Refused : GoMap NodeConfig → Type 0
Refused nodes =
    (all_found nodes (wait_for_dependencies nodes) ≡ false)
    × (create_nodes nodes ≡ fail Error.dependee_not_found)

abbrev pub Panics : GoMap NodeConfig → Type 0
Panics nodes =
    (all_found nodes (wait_for_dependencies nodes) ≡ true)
    × (any_bare nodes ≡ true)
    × (create_nodes nodes ≡ panic)

abbrev pub Cyclic : GoMap NodeConfig → Type 0
Cyclic nodes =
    (create_nodes nodes ≡ fail Error.cyclic_dependencies)
    × (m : String) × WaitsFor (planned nodes) m m

abbrev pub Created : GoMap NodeConfig → Type 0
Created nodes =
    (dm : Manager) × (create_nodes nodes ≡ ok dm)
    × Records nodes (planned nodes) dm
    × ((m : String) → ¬ WaitsFor (planned nodes) m m)
    × (r : String → ℕ) × IsRankedBy r (planned nodes)

-- On nodes with distinct names whose stages are all there, createNodes either returns an error, as
-- a wait-for entry names no node of the lab; or panics, as some network mode is "container" alone;
-- or returns an error, as some node waits for itself; or records exactly the planned dependencies,
-- over which no node waits for itself and by which the nodes are ranked, the dependers lower.
pub create_nodes_lem :
    (nodes : GoMap NodeConfig)
    → AreComplete nodes
    → Distinct (keys nodes)
    → (Refused nodes ⊎ Panics nodes) ⊎ (Cyclic nodes ⊎ Created nodes)
unfolding create_nodes
create_nodes_lem nodes c d =
    let (dm₀, e₀, r₀) = add_nodes-Records nodes c d in
    let (dm₁, e₁, r₁) = create_static_dynamic-Records nodes [] dm₀ r₀ in
    elim (create_wait_for-Records nodes _ dm₁ c r₁) [
      | inr (missing, e₂) ↦ inl (
          inl (missing, rw (e₀, create_nodes) (rw (e₁, create_nodes) (rw (e₂, create_nodes) refl))))
      | inl (found, dm₂, e₂, r₂) ↦ elim (create_namespace_sharing-Records nodes _ dm₂ r₂) [
        | inr (bare, e₃) ↦ inl (
            inr (
              found,
              bare,
              rw (e₀, create_nodes)
                  (rw (e₁, create_nodes) (rw (e₂, create_nodes) (rw (e₃, create_nodes) refl))),
            ))
        | inl (fine, dm₃, e₃, r₃) ↦
            let so_far : create_nodes nodes ≡ check_acyclicity dm₃ =
              rw (e₀, create_nodes)
                (rw (e₁, create_nodes) (rw (e₂, create_nodes) (rw (e₃, create_nodes) refl))) in
            elim (check_acyclicity-Records nodes (planned nodes) dm₃ d
              (Depend-of_AreKnown nodes (planned nodes) dm₃ r₃.same_nodes r₃.accounts.known) r₃) [
                | inl (e, no_cycle, ranks, ranked) ↦
                    inr (inr (dm₃, so_far ∙ e, r₃, no_cycle, ranks, ranked))
                | inr (e, m, cycle) ↦ inr (inl (so_far ∙ e, m, cycle))
              ]
      ]
    ]
