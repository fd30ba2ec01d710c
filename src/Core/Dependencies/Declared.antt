-- ===== src/Core/Dependencies/Declared.antt =====
-- createWaitForDependency: the wait-for entries of the stages of the nodes.
use containerlab.Types.Stages.{
  WaitFor, Stages, get_wait_for, get_wait_for_stages, wait_for_create, wait_for_create_links,
  wait_for_configure, wait_for_healthy, wait_for_exit, StageBase,
}
use containerlab.Types.Stages.Merging.{
  IsComplete, waits, creating, linking, configuring, being_healthy, exiting,
}
use containerlab.DependencyManager.Node.{
  NodeConfig, Manager, add_depender, DependencyNode, get_node,
}
use containerlab.DependencyManager.Node.History.{Dependency}
use containerlab.Core.Dependencies.{
  find_dependee, wait_for_nodes, wait_for_stages, wait_for_all, create_wait_for_dependency,
}
use containerlab.Core.Dependencies.Recording.{
  add_dependency, Records, add_dependency-Records, is_known-get_nodes,
}
use containerlab.Core.Dependencies.Starting.{AreComplete}
use containerlab.Core.Dependencies.StaticFirst.{bind_assoc}
use containerlab.Base.{
  String, ◌≡◌, refl, sym, ap, ◌∙◌, subst, ◌⊎◌, inl, inr, Bool, true, false, ◌&&◌, Option, none,
  some, List, [], ◌∷◌, ◌++◌, arith, eq_refl, Bool-cases, is_some, Error, Outcome, ok, fail, ◌>>=◌,
}
use containerlab.Base.Lists.{elem}
use containerlab.Base.GoMap.{GoMap, keys}
use containerlab.DependencyManager.Node.Views.{is_known, known_node}
use mathlib.Core.List.{append-nil, append_assoc}

-- The dependencies of the wait-for lists, in the order of the loops.
abbrev pub of_entries : String → String → List WaitFor → List Dependency
of_entries depender stage [] = []
of_entries depender stage (w ∷ ws) =
    record {
      dependee = w.node;
      stage = w.stage;
      depender = record { depender = depender; stage = stage };
    }
    ∷ of_entries depender stage ws

abbrev pub of_lists : String → GoMap (List WaitFor) → List Dependency
of_lists depender [] = []
of_lists depender ((stage, ws) ∷ m) = of_entries depender stage ws ++ of_lists depender m

abbrev pub wait_lists : Stages → GoMap (List WaitFor)
wait_lists s =
    (wait_for_configure, waits s.configure)
    ∷ (wait_for_create, waits s.create)
    ∷ (wait_for_create_links, waits s.create_links)
    ∷ (wait_for_healthy, waits s.healthy)
    ∷ (wait_for_exit, waits s.exit)
    ∷ []

abbrev pub wait_for_dependencies : GoMap NodeConfig → List Dependency
wait_for_dependencies [] = []
wait_for_dependencies ((depender, config) ∷ nodes) =
    of_lists depender (wait_lists config.stages) ++ wait_for_dependencies nodes

-- Are all dependees nodes of the lab?
abbrev pub all_found : GoMap NodeConfig → List Dependency → Bool
all_found nodes [] = true
all_found nodes (e ∷ deps) = elem e.dependee (keys nodes) && all_found nodes deps

abbrev add_checked : Manager → List Dependency → Outcome Manager
add_checked dm [] = ok dm
add_checked dm (e ∷ deps) = do
  found ← find_dependee dm e.dependee
  dm' ← add_dependency dm e
  add_checked dm' deps

add_checked-append :
    (dm : Manager) (xs ys : List Dependency)
    → add_checked dm (xs ++ ys) ≡ (add_checked dm xs >>= λ dm'. add_checked dm' ys)
add_checked-append dm [] ys = refl
add_checked-append dm (x ∷ xs) ys =
    (λ i.
      find_dependee dm x.dependee
      >>= (λ found. add_dependency dm x >>= (λ dm'. add_checked-append dm' xs ys i)))
    ∙ (λ i. find_dependee dm x.dependee >>= (λ found.
        sym
          (bind_assoc (add_dependency dm x) (λ dm'. add_checked dm' xs) (λ dm'. add_checked dm' ys))
          i))
    ∙ sym (
        bind_assoc (find_dependee dm x.dependee)
          (λ found. add_dependency dm x >>= λ dm'. add_checked dm' xs) (λ dm'. add_checked dm' ys))

wait_for_nodes-eq :
    (dm : Manager) (depender stage : String) (ws : List WaitFor)
    → wait_for_nodes dm depender stage ws ≡ add_checked dm (of_entries depender stage ws)
unfolding wait_for_nodes
wait_for_nodes-eq dm depender stage [] = refl
wait_for_nodes-eq dm depender stage (w ∷ ws) = λ i. find_dependee dm w.node >>= (λ found.
    add_depender dm w.node stage depender w.stage
    >>= (λ dm'. wait_for_nodes-eq dm' depender stage ws i))

wait_for_stages-eq :
    (dm : Manager) (depender : String) (m : GoMap (List WaitFor))
    → wait_for_stages dm depender m ≡ add_checked dm (of_lists depender m)
unfolding wait_for_stages
wait_for_stages-eq dm depender [] = refl
wait_for_stages-eq dm depender ((stage, ws) ∷ m) =
    (λ i. wait_for_nodes-eq dm depender stage ws i >>= (λ dm'. wait_for_stages-eq dm' depender m i))
    ∙ sym (add_checked-append dm (of_entries depender stage ws) (of_lists depender m))

some_stage : (o : Option StageBase) → is_some o ≡ true → (b : StageBase) × (o ≡ some b)
some_stage none h = cc
some_stage (some b) h = (b, refl)

get_wait_for_complete : (s : Stages) → IsComplete s → get_wait_for s ≡ ok (wait_lists s)
unfolding get_wait_for
get_wait_for_complete s c =
    let (x₁, e₁) = some_stage s.configure (c.at configuring) in
    let (x₂, e₂) = some_stage s.create (c.at creating) in
    let (x₃, e₃) = some_stage s.create_links (c.at linking) in
    let (x₄, e₄) = some_stage s.healthy (c.at being_healthy) in
    let (x₅, e₅) = some_stage s.exit (c.at exiting) in rw (e₁, e₂, e₃, e₄, e₅)

wait_for_all-eq :
    (nodes : GoMap NodeConfig) (dm : Manager)
    → AreComplete nodes
    → wait_for_all dm nodes ≡ add_checked dm (wait_for_dependencies nodes)
unfolding wait_for_all
wait_for_all-eq [] dm c = refl
wait_for_all-eq ((depender, config) ∷ nodes) dm (c, cs) =
    rw (get_wait_for_complete config.stages c, wait_for_all)
      ((λ i.
          wait_for_stages-eq dm depender (wait_lists config.stages) i
          >>= (λ dm'. wait_for_all-eq nodes dm' cs i))
        ∙ sym (
            add_checked-append dm (of_lists depender (wait_lists config.stages))
              (wait_for_dependencies nodes)))

-- The dependers are nodes of the lab, and wait at one of the five stages.
AreDependers : GoMap NodeConfig → List Dependency → Type 0
AreDependers nodes [] = Unit
AreDependers nodes (e ∷ deps) =
    (elem e.depender.depender (keys nodes) ≡ true)
    × (elem e.depender.stage get_wait_for_stages ≡ true)
    × AreDependers nodes deps

AreDependers-append :
    (nodes : GoMap NodeConfig) (xs ys : List Dependency)
    → AreDependers nodes xs
    → AreDependers nodes ys
    → AreDependers nodes (xs ++ ys)
unfolding AreDependers
AreDependers-append nodes [] ys h k = k
AreDependers-append nodes (x ∷ xs) ys (h, g, hs) k = (h, g, AreDependers-append nodes xs ys hs k)

AreDependers-of_entries :
    (nodes : GoMap NodeConfig) (depender stage : String) (ws : List WaitFor)
    → elem depender (keys nodes) ≡ true
    → elem stage get_wait_for_stages ≡ true
    → AreDependers nodes (of_entries depender stage ws)
unfolding AreDependers
AreDependers-of_entries nodes depender stage [] h k = tt
AreDependers-of_entries nodes depender stage (w ∷ ws) h k =
    (h, k, AreDependers-of_entries nodes depender stage ws h k)

AreDependers-wait_for :
    (all nodes : GoMap NodeConfig)
    → ((n : String) → elem n (keys nodes) ≡ true → elem n (keys all) ≡ true)
    → AreDependers all (wait_for_dependencies nodes)
unfolding AreDependers
AreDependers-wait_for all [] h = tt
AreDependers-wait_for all ((n, config) ∷ nodes) h =
    let k = h n (ground (arith, eq_refl n)) in
    let s = config.stages in
    let none_left : AreDependers all [] = tt in
    AreDependers-append all (of_lists n (wait_lists s)) (wait_for_dependencies nodes)
      (AreDependers-append all _ _
        (AreDependers-of_entries all n wait_for_configure (waits s.configure) k refl)
        (AreDependers-append all _ _
          (AreDependers-of_entries all n wait_for_create (waits s.create) k refl)
          (AreDependers-append all _ _
            (AreDependers-of_entries all n wait_for_create_links (waits s.create_links) k refl)
            (AreDependers-append all _ _
              (AreDependers-of_entries all n wait_for_healthy (waits s.healthy) k refl)
              (AreDependers-append all _ _
                (AreDependers-of_entries all n wait_for_exit (waits s.exit) k refl) none_left)))))
      (AreDependers-wait_for all nodes (λ m e. h m (ground arith)))

find_dependee-known :
    (dm : Manager) (n : String)
    → is_known dm n ≡ true
    → (node : DependencyNode) × (find_dependee dm n ≡ ok node)
unfolding find_dependee is_known
find_dependee-known dm n k = let (node, l) = known_node dm n k in (node, rw (l, find_dependee) refl)

find_dependee-unknown :
    (dm : Manager) (n : String)
    → is_known dm n ≡ false
    → find_dependee dm n ≡ fail Error.dependee_not_found
unfolding find_dependee is_known get_node
find_dependee-unknown dm n k = ground (arith, k)

-- Either all dependees are found, and the dependencies are recorded, or the first loop that meets
-- an unknown one ends with its error.
Verdict : GoMap NodeConfig → List Dependency → List Dependency → Manager → Type 0
Verdict nodes deps new dm =
    ((all_found nodes new ≡ true)
      × (dm' : Manager) × (add_checked dm new ≡ ok dm')
      × Records nodes (deps ++ new) dm')
    ⊎ ((all_found nodes new ≡ false) × (add_checked dm new ≡ fail Error.dependee_not_found))

add_checked-Records :
    (nodes : GoMap NodeConfig) (deps new : List Dependency) (dm : Manager)
    → Records nodes deps dm
    → AreDependers nodes new
    → Verdict nodes deps new dm
unfolding Verdict AreDependers
add_checked-Records nodes deps [] dm r b =
    inl (refl, dm, refl, subst (λ l. Records nodes l dm) (sym (append-nil deps)) r)
add_checked-Records nodes deps (e ∷ new) dm r (in_depender, in_stage, bs) =
    let k =
      is_known-get_nodes dm e.dependee
      ∙ ap (λ (m : GoMap NodeConfig). elem e.dependee (keys m)) r.same_nodes in
    elim (Bool-cases (elem e.dependee (keys nodes))) [
      | inl here ↦
          let (node, f) = find_dependee-known dm e.dependee (k ∙ here) in
          let (dm₁, e₁, r₁) =
            add_dependency-Records nodes deps dm e r (here, in_depender, in_stage) in
          elim (add_checked-Records nodes (deps ++ e ∷ []) new dm₁ r₁ bs) [
            | inl (a, dm₂, e₂, r₂) ↦ inl (
              rw here a,
              dm₂,
              rw (f, e₁) e₂,
              subst (λ l. Records nodes l dm₂) (append_assoc deps (e ∷ []) new) r₂,
            )
            | inr (a, e₂) ↦ inr (rw here a, rw (f, e₁) e₂)
          ]
      | inr unknown ↦ inr (rw unknown, rw (find_dependee-unknown dm e.dependee (k ∙ unknown)))
    ]

-- createWaitForDependency records every wait-for entry of every stage of every node if the entries
-- name nodes of the lab, and returns an error otherwise.
pub create_wait_for-Records :
    (nodes : GoMap NodeConfig) (deps : List Dependency) (dm : Manager)
    → AreComplete nodes
    → Records nodes deps dm
    → ((all_found nodes (wait_for_dependencies nodes) ≡ true)
        × (dm' : Manager) × (create_wait_for_dependency dm ≡ ok dm')
        × Records nodes (deps ++ wait_for_dependencies nodes) dm')
      ⊎ ((all_found nodes (wait_for_dependencies nodes) ≡ false)
          × (create_wait_for_dependency dm ≡ fail Error.dependee_not_found))
unfolding create_wait_for_dependency Verdict
create_wait_for-Records nodes deps dm c r =
    rw (r.same_nodes, wait_for_all-eq nodes dm c)
      (add_checked-Records nodes deps (wait_for_dependencies nodes) dm r
        (AreDependers-wait_for nodes nodes (λ n h. h)))
