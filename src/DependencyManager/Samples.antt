-- ===== src/DependencyManager/Samples.antt =====
-- Small dependency managers and maps of dependers, and the theorems at them.
use containerlab.Base.{
  String, ◌≡◌, refl, sym, ◌∙◌, subst, ◌⊎◌, true, false, some, [], ◌∷◌, Outcome, ok, fail, panic,
}
use containerlab.Base.GoMap.{lookup, insert}
use containerlab.DependencyManager.Node.Signals.{
  done-Accounts, signal_dependers-Accounts, may_enter_lem,
}
use containerlab.DependencyManager.Node.{
  Runner, run_execs, done, DependerNodeStage, DependencyNode, NodeConfig, Manager, for_all_stages,
  add_depender, signal_dependers, may_enter,
}
use containerlab.Types.Stages.{new_stages}
use containerlab.Types.Stages.Merging.{
  IsComplete, creating, linking, configuring, being_healthy, exiting,
}
use containerlab.DependencyManager.Acyclic.{Graph, is_acyclic}
use containerlab.DependencyManager.Acyclic.Cycles.{is_acyclic_iff_no_cycle, Chain}
use containerlab.DependencyManager.Node.Views.{is_known, has_wg}
use containerlab.DependencyManager.Node.Fresh.{Accounts-insert, Accounts-nil}
use containerlab.DependencyManager.Node.History.{Dependency, Accounts, add_depender-Accounts}

-- A node waits for the next, and the last for the first.
abbrev ring : Graph
ring = ("a", "b" ∷ []) ∷ ("b", "a" ∷ []) ∷ []

abbrev tree : Graph
tree = ("a", "b" ∷ "c" ∷ []) ∷ ("b", "c" ∷ []) ∷ ("c", []) ∷ []

is_acyclic_iff_no_cycle_example :
    ((is_acyclic ring ≡ some true) × ((m : String) → ¬ Chain ring m m))
    ⊎ ((is_acyclic ring ≡ some false) × (m : String) × Chain ring m m)
is_acyclic_iff_no_cycle_example =
    is_acyclic_iff_no_cycle ring (refl, (refl, tt)) ((refl, tt), ((refl, tt), tt))

abbrev config : NodeConfig
config = record {
  network_mode = "";
  mgmt_ipv4_address = "";
  mgmt_ipv6_address = "";
  stages = new_stages;
}

config-IsComplete : IsComplete config.stages
config-IsComplete = record {
  at = elim [
    | creating ↦ refl
    | linking ↦ refl
    | configuring ↦ refl
    | being_healthy ↦ refl
    | exiting ↦ refl
  ];
}

abbrev fresh : DependencyNode
fresh = record {
  config = config;
  stage_wg = for_all_stages 0;
  must_wait = ("create-links", false) ∷ ("configure", false) ∷ ("healthy", false) ∷ [];
  depender = for_all_stages [];
}

abbrev pair : Manager
pair = ("a", fresh) ∷ ("b", fresh) ∷ []

pair-Accounts : Accounts [] [] pair
unfolding insert
pair-Accounts =
    Accounts-insert _ "b" fresh refl refl (Accounts-insert [] "a" fresh refl refl Accounts-nil)

-- Node b waits with its creation until a has been created.
abbrev create_b : DependerNodeStage
create_b = record { depender = "b"; stage = "create" }

abbrev b_after_a : Dependency
b_after_a = record { dependee = "a"; stage = "create"; depender = create_b }

a_known : is_known pair "a" ≡ true
unfolding is_known lookup
a_known = refl

b_has_wg : has_wg pair "b" "create" ≡ true
unfolding has_wg lookup
b_has_wg = refl

add_depender-Accounts_example :
    (dm' : Manager) × (add_depender pair "a" "create" "b" "create" ≡ ok dm')
    × Accounts (b_after_a ∷ []) [] dm'
add_depender-Accounts_example =
    add_depender-Accounts [] pair b_after_a pair-Accounts a_known b_has_wg

abbrev a_made : DependencyNode
a_made = record fresh {
  must_wait =
      ("create-links", false) ∷ ("configure", false) ∷ ("healthy", false) ∷ ("create", true) ∷ [];
  depender =
      ("create", create_b ∷ [])
      ∷ ("create-links", [])
      ∷ ("configure", [])
      ∷ ("healthy", [])
      ∷ ("exit", [])
      ∷ [];
}

abbrev b_waits : DependencyNode
b_waits = record fresh {
  stage_wg =
      ("create", 1) ∷ ("create-links", 0) ∷ ("configure", 0) ∷ ("healthy", 0) ∷ ("exit", 0) ∷ [];
}

-- The managers after that dependency is recorded, and after a has been created.
abbrev waiting_pair : Manager
waiting_pair = ("a", a_made) ∷ ("b", b_waits) ∷ []

abbrev released_pair : Manager
released_pair = ("a", a_made) ∷ ("b", fresh) ∷ []

at_result :
    (P : Manager → Type 0) (m : Outcome Manager) (x : Manager)
    → (y : Manager) × (m ≡ ok y) × P y
    → m ≡ ok x
    → P x
at_result P m x (y, e, p) f =
    subst (elim [ ok z ↦ P z | fail err ↦ Unit | panic ↦ Unit ]) (sym e ∙ f) p

waiting_pair-Accounts : Accounts (b_after_a ∷ []) [] waiting_pair
unfolding add_depender lookup insert
waiting_pair-Accounts = at_result _ _ waiting_pair add_depender-Accounts_example refl

pair_released :
    (dm' : Manager) × (signal_dependers waiting_pair "a" "create" ≡ ok dm')
    × Accounts (b_after_a ∷ []) (("a", "create") ∷ []) dm'
pair_released =
    signal_dependers-Accounts (b_after_a ∷ []) [] waiting_pair "a" "create" waiting_pair-Accounts
      (unfold is_known lookup in refl) refl

-- A runner under which every command succeeds.
abbrev runner : Runner
runner = record {
  shlex_split = λ command. ok (command ∷ []);
  node_run_exec = λ name cmd. ok tt;
  host_run_exec = λ cmd. ok tt;
}

done-Accounts_example :
    ((run_execs runner a_made "a" "on-exit" "create" ≡ panic)
      × (done runner waiting_pair "a" "create" ≡ panic))
    ⊎ ((run_execs runner a_made "a" "on-exit" "create" ≡ ok tt)
        × (dm' : Manager) × (done runner waiting_pair "a" "create" ≡ ok dm')
        × Accounts (b_after_a ∷ []) (("a", "create") ∷ []) dm')
done-Accounts_example =
    done-Accounts runner (b_after_a ∷ []) [] waiting_pair "a" "create" a_made waiting_pair-Accounts
      (unfold lookup in refl) refl

released_pair-Accounts : Accounts (b_after_a ∷ []) (("a", "create") ∷ []) released_pair
unfolding signal_dependers lookup insert
released_pair-Accounts = at_result _ _ released_pair pair_released refl

held_back : may_enter b_waits "create" ≡ ok false
held_back =
    may_enter_lem (b_after_a ∷ []) [] waiting_pair "b" "create" b_waits waiting_pair-Accounts
      (unfold lookup in refl) (unfold has_wg lookup in refl)
