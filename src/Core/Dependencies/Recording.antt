-- ===== src/Core/Dependencies/Recording.antt =====
-- A list of dependencies, recorded one after the other.
use containerlab.Types.Stages.{get_wait_for_stages}
use containerlab.DependencyManager.Acyclic.Cycles.{edge}
use containerlab.DependencyManager.Node.{NodeConfig, Manager, add_depender}
use containerlab.DependencyManager.Node.Views.{is_known, has_wg}
use containerlab.DependencyManager.Node.Keeping.{must_wait_of}
use containerlab.DependencyManager.Node.Marking.{Marks, add_depender-Marks}
use containerlab.DependencyManager.Node.Adding.{add_depender_lem}
use containerlab.DependencyManager.Node.History.{Dependency, Accounts, add_depender-Accounts}
use containerlab.DependencyManager.Check.{get_nodes, generate_dependency_map}
use containerlab.DependencyManager.Check.Edges.{add_depender-Extended}
use containerlab.Base.{
  ℕ, ◌<◌, String, ◌≡◌, refl, sym, ap, ◌∙◌, subst, inl, inr, Bool, true, false, ◌&&◌, ◌||◌, List, [],
  ◌∷◌, ◌++◌, arith, str_eq, eq_iff, Bool-cases, Outcome, ok, ◌>>=◌,
}
use containerlab.Base.Lists.{elem}
use containerlab.Base.GoMap.{GoMap, lookup, keys}
use mathlib.Core.List.{append-nil, append_assoc}

-- Does some dependency make b wait for a?
abbrev pub has_dependency : String → String → List Dependency → Bool
has_dependency a b [] = false
has_dependency a b (e ∷ deps) =
    (str_eq a e.dependee && str_eq b e.depender.depender) || has_dependency a b deps

-- Every depender is ranked below its dependee.
abbrev pub IsRankedBy : (String → ℕ) → List Dependency → Type 0
IsRankedBy r deps = (a b : String) → has_dependency a b deps ≡ true → r b < r a

-- Both nodes are nodes of the lab, and the depender waits at one of the five stages.
abbrev pub IsBetween : GoMap NodeConfig → Dependency → Type 0
IsBetween nodes e =
    (elem e.dependee (keys nodes) ≡ true)
    × (elem e.depender.depender (keys nodes) ≡ true)
    × (elem e.depender.stage get_wait_for_stages ≡ true)

abbrev pub AreBetween : GoMap NodeConfig → List Dependency → Type 0
AreBetween nodes [] = Unit
AreBetween nodes (e ∷ deps) = IsBetween nodes e × AreBetween nodes deps

-- Does some dependency make a node wait for stage p of node d?
abbrev pub has_dependee : String → String → List Dependency → Bool
has_dependee d p [] = false
has_dependee d p (e ∷ deps) = (str_eq d e.dependee && str_eq p e.stage) || has_dependee d p deps

-- The manager holds the nodes, and has recorded exactly the dependencies.
pub record Records (nodes : GoMap NodeConfig) (deps : List Dependency) (dm : Manager) : Type 0 where
  pub accounts : Accounts deps [] dm
  pub same_nodes : get_nodes dm ≡ nodes
  pub edges : (a b : String) → edge a b (generate_dependency_map dm) ≡ has_dependency a b deps
  pub wait_groups :
      (n s : String)
      → elem n (keys nodes) ≡ true
      → elem s get_wait_for_stages ≡ true
      → has_wg dm n s ≡ true
  pub marked : (d p : String) → has_dependee d p deps ≡ true → must_wait_of dm d p ≡ true

pub is_known-get_nodes : (dm : Manager) (n : String) → is_known dm n ≡ elem n (keys (get_nodes dm))
unfolding is_known get_nodes lookup
is_known-get_nodes [] n = refl
is_known-get_nodes ((k, node) ∷ dm) n =
    ground (arith, is_known-get_nodes dm n, eq_iff k n, eq_iff n k)

has_dependency-snoc :
    (a b : String) (deps : List Dependency) (e : Dependency)
    → has_dependency a b (deps ++ e ∷ [])
      ≡ (has_dependency a b deps || (str_eq a e.dependee && str_eq b e.depender.depender))
has_dependency-snoc a b [] e = ground arith
has_dependency-snoc a b (x ∷ deps) e = ground (arith, has_dependency-snoc a b deps e)

has_dependee-snoc :
    (d p : String) (deps : List Dependency) (e : Dependency)
    → has_dependee d p (deps ++ e ∷ [])
      ≡ (has_dependee d p deps || (str_eq d e.dependee && str_eq p e.stage))
has_dependee-snoc d p [] e = ground arith
has_dependee-snoc d p (x ∷ deps) e = ground (arith, has_dependee-snoc d p deps e)

-- AddDepender for a dependency.
abbrev pub add_dependency : Manager → Dependency → Outcome Manager
add_dependency dm e = add_depender dm e.dependee e.depender.stage e.depender.depender e.stage

abbrev pub add_all : Manager → List Dependency → Outcome Manager
add_all dm [] = ok dm
add_all dm (e ∷ deps) = do dm' ← add_dependency dm e; add_all dm' deps

marked_as :
    (d p : String) (e : Dependency) (dm' : Manager) {dm : Manager}
    → Marks dm dm' e.dependee e.stage true
    → (str_eq d e.dependee && str_eq p e.stage) ≡ true
    → must_wait_of dm' d p ≡ true
marked_as d p e dm' marks h =
    let same_node : d ≡ e.dependee = (eq_iff d e.dependee).0 (ground (arith, h)) in
    let same_stage : p ≡ e.stage = (eq_iff p e.stage).0 (ground (arith, h)) in
    rw (same_node, same_stage) (marks.marked refl)

pub add_dependency-Records :
    (nodes : GoMap NodeConfig) (deps : List Dependency) (dm : Manager) (e : Dependency)
    → Records nodes deps dm
    → IsBetween nodes e
    → (dm' : Manager) × (add_dependency dm e ≡ ok dm') × Records nodes (deps ++ e ∷ []) dm'
add_dependency-Records nodes deps dm e r (in_dependee, in_depender, in_stage) =
    let k =
      is_known-get_nodes dm e.dependee
      ∙ ap (λ (m : GoMap NodeConfig). elem e.dependee (keys m)) r.same_nodes
      ∙ in_dependee in
    let w = r.wait_groups e.depender.depender e.depender.stage in_depender in_stage in
    let (dm₁, e₁, added) = add_depender_lem dm e.dependee e.depender e.stage k w in
    let (dm', e', a) = add_depender-Accounts deps dm e r.accounts k w in
    let x =
      add_depender-Extended dm dm' e.dependee e.depender.stage e.depender.depender e.stage e' in
    let same : dm₁ ≡ dm' = cc in
    let marks =
      add_depender-Marks dm dm' e.dependee e.depender.stage e.depender.depender e.stage e' in
    (
      dm',
      e',
      record {
        accounts = a;
        same_nodes = x.same_nodes ∙ r.same_nodes;
        edges =
            λ a' b. x.edges a' b ∙ ground (arith, r.edges a' b, has_dependency-snoc a' b deps e);
        wait_groups = λ n s i j. rw (← same) (added.kept_wg n s (r.wait_groups n s i j));
        marked = λ d p h. elim (Bool-cases (has_dependee d p deps)) [
          | inl old ↦ marks.kept d p (r.marked d p old)
          | inr new ↦
              marked_as d p e dm' marks (ground (arith, has_dependee-snoc d p deps e, h, new))
        ];
      },
    )

-- Dependencies between the nodes of a lab are all recorded.
pub add_all-Records :
    (nodes : GoMap NodeConfig) (deps new : List Dependency) (dm : Manager)
    → Records nodes deps dm
    → AreBetween nodes new
    → (dm' : Manager) × (add_all dm new ≡ ok dm') × Records nodes (deps ++ new) dm'
add_all-Records nodes deps [] dm r b =
    (dm, refl, subst (λ l. Records nodes l dm) (sym (append-nil deps)) r)
add_all-Records nodes deps (e ∷ new) dm r (b, bs) =
    let (dm₁, e₁, r₁) = add_dependency-Records nodes deps dm e r b in
    let (dm₂, e₂, r₂) = add_all-Records nodes (deps ++ e ∷ []) new dm₁ r₁ bs in
    (dm₂, rw e₁ e₂, subst (λ l. Records nodes l dm₂) (append_assoc deps (e ∷ []) new) r₂)
