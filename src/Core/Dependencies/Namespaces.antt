-- ===== src/Core/Dependencies/Namespaces.antt =====
-- createNamespaceSharingDependency: a node in the network namespace of another is created after it.
use containerlab.Types.Text.{split_n2}
use containerlab.DependencyManager.Node.{NodeConfig, Manager, get_node, add_depender}
use containerlab.DependencyManager.Node.History.{Dependency}
use containerlab.Core.Dependencies.StaticFirst.{creation_after}
use containerlab.Base.{
  String, ◌≡◌, refl, sym, ap, ◌∙◌, subst, ◌⊎◌, inl, inr, Bool, true, false, not, ◌&&◌, ◌||◌, Option,
  none, some, List, [], ◌∷◌, ◌++◌, arith, str_eq, eq_refl, if◌then◌else◌, Bool-cases, is_some,
  Outcome, ok, fail, panic, ◌>>=◌, deref,
}
use containerlab.Base.Lists.{elem}
use containerlab.Base.GoMap.{GoMap, lookup, keys}
-- The network mode as an owner of the namespace, where it is "container:<owner>"; it is bare where
-- it is "container" alone.
use containerlab.DependencyManager.Node.Views.{is_known, known_node}
use containerlab.Types.Stages.{wait_for_create}
use containerlab.Core.Dependencies.{
  share_namespace, share_namespaces, create_namespace_sharing_dependency,
}
use containerlab.Core.Dependencies.Recording.{Records, add_dependency-Records, is_known-get_nodes}
use mathlib.Core.List.{append-nil, append_assoc}

abbrev owner_of_parts : String × Option String → Option String
owner_of_parts (kind, rest) = if str_eq kind "container" then rest else none

abbrev bare_parts : String × Option String → Bool
bare_parts (kind, rest) = str_eq kind "container" && not (is_some rest)

abbrev pub owner_of : NodeConfig → Option String
owner_of config = owner_of_parts (split_n2 b':' config.network_mode)

abbrev pub is_bare : NodeConfig → Bool
is_bare config = bare_parts (split_n2 b':' config.network_mode)

abbrev pub any_bare : GoMap NodeConfig → Bool
any_bare [] = false
any_bare ((name, config) ∷ nodes) = is_bare config || any_bare nodes

abbrev pub on_owner : GoMap NodeConfig → String → Option String → List Dependency
on_owner all name none = []
on_owner all name (some owner) =
    if elem owner (keys all) then creation_after owner name ∷ [] else []

-- The nodes whose owner is a node of the lab are created after it.
abbrev pub namespace_dependencies : GoMap NodeConfig → GoMap NodeConfig → List Dependency
namespace_dependencies all [] = []
namespace_dependencies all ((name, config) ∷ nodes) =
    on_owner all name (owner_of config) ++ namespace_dependencies all nodes

-- AddDepender for an owner, if it is known.
abbrev share_with : Manager → String → String → Outcome Manager
share_with dm name owner = elim (get_node dm owner) [
  | ok node ↦ add_depender dm owner wait_for_create name wait_for_create
  | fail e ↦ ok dm
  | panic ↦ panic
]

abbrev share_parts : Manager → String → String × Option String → Outcome Manager
share_parts dm name (kind, rest) = elim (str_eq kind "container") [
  | false ↦ ok dm
  | true ↦ deref rest >>= share_with dm name
]

share_parts-bare :
    (dm : Manager) (name : String) (parts : String × Option String)
    → bare_parts parts ≡ true
    → share_parts dm name parts ≡ panic
share_parts-bare dm name (kind, none) h = ground arith
share_parts-bare dm name (kind, some owner) h = ground arith

share_namespace-bare :
    (dm : Manager) (name : String) (config : NodeConfig)
    → is_bare config ≡ true
    → share_namespace dm name config ≡ panic
unfolding share_namespace
share_namespace-bare dm name config h =
    share_parts-bare dm name (split_n2 b':' config.network_mode) h

module _ (all : GoMap NodeConfig) (deps : List Dependency) (dm : Manager) (name : String)
    (r : Records all deps dm) where
  Shared : Outcome Manager → Option String → Type 0
  Shared m owner =
      (dm' : Manager) × (m ≡ ok dm') × Records all (deps ++ on_owner all name owner) dm'

  Shared-none : Shared (ok dm) none
  unfolding Shared
  Shared-none = (dm, refl, subst (λ l. Records all l dm) (sym (append-nil deps)) r)

  share_with-Records :
      (owner : String)
      → elem name (keys all) ≡ true
      → Shared (share_with dm name owner) (some owner)
  unfolding Shared get_node is_known
  share_with-Records owner k =
      let known =
        is_known-get_nodes dm owner
        ∙ ap (λ (m : GoMap NodeConfig). elem owner (keys m)) r.same_nodes in
      elim (Bool-cases (elem owner (keys all))) [
        | inl here ↦
            let (node, l) = known_node dm owner (known ∙ here) in
            let (dm', e, r') =
              add_dependency-Records all deps dm (creation_after owner name) r (here, k, refl) in
            (dm', rw (l, share_with) e, rw here r')
        | inr other ↦
            let unknown : lookup owner dm ≡ none = ground (arith, known, other) in
            (
              dm,
              rw (unknown, share_with) refl,
              rw other (subst (λ l. Records all l dm) (sym (append-nil deps)) r),
            )
      ]

  share_parts-Records :
      (parts : String × Option String)
      → elem name (keys all) ≡ true
      → bare_parts parts ≡ false
      → Shared (share_parts dm name parts) (owner_of_parts parts)
  share_parts-Records (kind, rest) k h = elim (Bool-cases (str_eq kind "container")) [
    | inr other ↦ rw (other, share_parts) Shared-none
    | inl same ↦ rw (same, share_parts) (with_rest rest (ground arith))
  ]
    where
      with_rest :
          (rest : Option String)
          → is_some rest ≡ true
          → Shared (deref rest >>= share_with dm name) rest
      with_rest none e = cc
      with_rest (some owner) e = share_with-Records owner k

-- Is the network mode of no node "container" alone, then the namespaces of the nodes are shared in
-- order; otherwise the loop panics.
share_namespaces-Records :
    (all nodes : GoMap NodeConfig) (deps : List Dependency) (dm : Manager)
    → Records all deps dm
    → ((n : String) → elem n (keys nodes) ≡ true → elem n (keys all) ≡ true)
    → ((any_bare nodes ≡ false)
        × (dm' : Manager) × (share_namespaces dm nodes ≡ ok dm')
        × Records all (deps ++ namespace_dependencies all nodes) dm')
      ⊎ ((any_bare nodes ≡ true) × (share_namespaces dm nodes ≡ panic))
unfolding share_namespaces Shared share_namespace
share_namespaces-Records all [] deps dm r h =
    inl (refl, dm, refl, subst (λ l. Records all l dm) (sym (append-nil deps)) r)
share_namespaces-Records all ((name, config) ∷ nodes) deps dm r h =
    elim (Bool-cases (is_bare config)) [
      | inl bare ↦ inr (rw bare, rw (share_namespace-bare dm name config bare))
      | inr fine ↦
          let (dm₁, e₁, r₁) =
            share_parts-Records all deps dm name r (split_n2 b':' config.network_mode)
              (h name (ground (arith, eq_refl name))) fine in
          let f₁ : share_namespace dm name config ≡ ok dm₁ = e₁ in
          elim (share_namespaces-Records all nodes (deps ++ on_owner all name (owner_of config)) dm₁
            r₁ (λ n k. h n (ground arith))) [
              | inl (b, dm₂, e₂, r₂) ↦ inl (
                rw fine b,
                dm₂,
                rw f₁ e₂,
                subst (λ l. Records all l dm₂)
                    (append_assoc deps (on_owner all name (owner_of config))
                      (namespace_dependencies all nodes))
                    r₂,
              )
              | inr (b, e₂) ↦ inr (rw fine b, rw f₁ e₂)
            ]
    ]

-- createNamespaceSharingDependency panics where the network mode of some node is "container" alone,
-- and otherwise makes each node wait for the owner of its namespace if that is a node of the lab.
pub create_namespace_sharing-Records :
    (nodes : GoMap NodeConfig) (deps : List Dependency) (dm : Manager)
    → Records nodes deps dm
    → ((any_bare nodes ≡ false)
        × (dm' : Manager) × (create_namespace_sharing_dependency dm ≡ ok dm')
        × Records nodes (deps ++ namespace_dependencies nodes nodes) dm')
      ⊎ ((any_bare nodes ≡ true) × (create_namespace_sharing_dependency dm ≡ panic))
unfolding create_namespace_sharing_dependency
create_namespace_sharing-Records nodes deps dm r =
    rw r.same_nodes (share_namespaces-Records nodes nodes deps dm r (λ n h. h))
