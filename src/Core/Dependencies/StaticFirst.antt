-- ===== src/Core/Dependencies/StaticFirst.antt =====
-- createStaticDynamicDependency: the nodes with a static address go first.
use containerlab.Types.Stages.{wait_for_create}
use containerlab.DependencyManager.Node.{NodeConfig, Manager}
use containerlab.DependencyManager.Node.History.{Dependency}
use containerlab.Core.Dependencies.{
  static_ip_nodes, dyn_ip_nodes, wait_for_static, static_before_dynamic,
  create_static_dynamic_dependency,
}
use containerlab.Core.Dependencies.Recording.{
  Records, AreBetween, add_dependency, add_all, add_all-Records,
}
use containerlab.Base.{
  String, ◌≡◌, refl, sym, ◌∙◌, true, List, [], ◌∷◌, ◌++◌, arith, eq_refl, Outcome, ok, fail, panic,
  ◌>>=◌,
}
use containerlab.Base.Lists.{elem}
use containerlab.Base.GoMap.{GoMap, keys}

-- The creation of a node waits for the creation of another.
abbrev pub creation_after : String → String → Dependency
creation_after dependee depender = record {
  dependee = dependee;
  stage = wait_for_create;
  depender = record { depender = depender; stage = wait_for_create };
}

-- Every dynamic node waits for every static node.
abbrev pub on_static : String → List String → List Dependency
on_static dyn [] = []
on_static dyn (s ∷ statics) = creation_after s dyn ∷ on_static dyn statics

abbrev pub static_dynamic : List String → List String → List Dependency
static_dynamic [] statics = []
static_dynamic (dyn ∷ dyns) statics = on_static dyn statics ++ static_dynamic dyns statics

pub bind_assoc :
    {A B C : Type 0} (m : Outcome A) (f : A → Outcome B) (g : B → Outcome C)
    → ((m >>= f) >>= g) ≡ (m >>= λ x. f x >>= g)
bind_assoc (ok a) f g = refl
bind_assoc (fail e) f g = refl
bind_assoc panic f g = refl

add_all-append :
    (dm : Manager) (xs ys : List Dependency)
    → add_all dm (xs ++ ys) ≡ (add_all dm xs >>= λ dm'. add_all dm' ys)
add_all-append dm [] ys = refl
add_all-append dm (x ∷ xs) ys =
    (λ i. add_dependency dm x >>= (λ dm'. add_all-append dm' xs ys i))
    ∙ sym (bind_assoc (add_dependency dm x) (λ dm'. add_all dm' xs) (λ dm'. add_all dm' ys))

wait_for_static-eq :
    (dm : Manager) (dyn : String) (statics : List String)
    → wait_for_static dm dyn statics ≡ add_all dm (on_static dyn statics)
unfolding wait_for_static
wait_for_static-eq dm dyn [] = refl
wait_for_static-eq dm dyn (s ∷ statics) =
    λ i. add_dependency dm (creation_after s dyn) >>= (λ dm'. wait_for_static-eq dm' dyn statics i)

static_before_dynamic-eq :
    (dm : Manager) (dyns statics : List String)
    → static_before_dynamic dm dyns statics ≡ add_all dm (static_dynamic dyns statics)
unfolding static_before_dynamic
static_before_dynamic-eq dm [] statics = refl
static_before_dynamic-eq dm (dyn ∷ dyns) statics =
    (λ i.
      wait_for_static-eq dm dyn statics i >>= (λ dm'. static_before_dynamic-eq dm' dyns statics i))
    ∙ sym (add_all-append dm (on_static dyn statics) (static_dynamic dyns statics))

AllOf : GoMap NodeConfig → List String → Type 0
AllOf nodes l = (n : String) → elem n l ≡ true → elem n (keys nodes) ≡ true

pub AreBetween-append :
    (nodes : GoMap NodeConfig) (xs ys : List Dependency)
    → AreBetween nodes xs
    → AreBetween nodes ys
    → AreBetween nodes (xs ++ ys)
AreBetween-append nodes [] ys h k = k
AreBetween-append nodes (x ∷ xs) ys (h, hs) k = (h, AreBetween-append nodes xs ys hs k)

AreBetween-on_static :
    (nodes : GoMap NodeConfig) (dyn : String) (statics : List String)
    → elem dyn (keys nodes) ≡ true
    → AllOf nodes statics
    → AreBetween nodes (on_static dyn statics)
unfolding AllOf
AreBetween-on_static nodes dyn [] h k = tt
AreBetween-on_static nodes dyn (s ∷ statics) h k = (
  (k s (ground (arith, eq_refl s)), h, refl),
  AreBetween-on_static nodes dyn statics h (λ n e. k n (ground arith)),
)

AreBetween-static_dynamic :
    (nodes : GoMap NodeConfig) (dyns statics : List String)
    → AllOf nodes dyns
    → AllOf nodes statics
    → AreBetween nodes (static_dynamic dyns statics)
unfolding AllOf
AreBetween-static_dynamic nodes [] statics h k = tt
AreBetween-static_dynamic nodes (dyn ∷ dyns) statics h k =
    AreBetween-append nodes (on_static dyn statics) _
      (AreBetween-on_static nodes dyn statics (h dyn (ground (arith, eq_refl dyn))) k)
      (AreBetween-static_dynamic nodes dyns statics (λ n e. h n (ground arith)) k)

AllOf-static_ip_nodes : (nodes : GoMap NodeConfig) → AllOf nodes (static_ip_nodes nodes)
unfolding AllOf static_ip_nodes
AllOf-static_ip_nodes [] n e = cc
AllOf-static_ip_nodes ((k, x) ∷ nodes) n e = ground (arith, AllOf-static_ip_nodes nodes n)

AllOf-dyn_ip_nodes : (nodes : GoMap NodeConfig) → AllOf nodes (dyn_ip_nodes nodes)
unfolding AllOf dyn_ip_nodes
AllOf-dyn_ip_nodes [] n e = cc
AllOf-dyn_ip_nodes ((k, x) ∷ nodes) n e = ground (arith, AllOf-dyn_ip_nodes nodes n)

abbrev pub static_dynamic_dependencies : GoMap NodeConfig → List Dependency
static_dynamic_dependencies nodes = static_dynamic (dyn_ip_nodes nodes) (static_ip_nodes nodes)

-- createStaticDynamicDependency makes every dynamic node wait for every static one.
pub create_static_dynamic-Records :
    (nodes : GoMap NodeConfig) (deps : List Dependency) (dm : Manager)
    → Records nodes deps dm
    → (dm' : Manager) × (create_static_dynamic_dependency dm ≡ ok dm')
      × Records nodes (deps ++ static_dynamic_dependencies nodes) dm'
unfolding create_static_dynamic_dependency
create_static_dynamic-Records nodes deps dm r =
    let (dm', e, r') = add_all-Records nodes deps (static_dynamic_dependencies nodes) dm r (
      AreBetween-static_dynamic nodes (dyn_ip_nodes nodes) (static_ip_nodes nodes)
        (AllOf-dyn_ip_nodes nodes) (AllOf-static_ip_nodes nodes)) in
    (
      dm',
      rw r.same_nodes
          (static_before_dynamic-eq dm (dyn_ip_nodes nodes) (static_ip_nodes nodes) ∙ e),
      r',
    )
