-- ===== src/DependencyManager/Node.antt =====
-- core/dependency_manager/dependency_node.go and depender_node_stage.go. The manager's map is the
-- store of the nodes, and a pointer to a node is its name. A wait group is its counter.
pub mod Views
pub mod Fresh
pub mod Adding
pub mod History
pub mod Signals
pub mod Keeping
pub mod Marking
use containerlab.Base.{
  ℕ, zero, suc, ◌+◌, ◌-◌, ◌*◌, ◌/◌, ◌%◌, ◌^◌, ◌≤◌, ◌<◌, String, ◌≡◌, refl, sym, ap, ◌∙◌, subst, ◌≢◌,
  ◌↔◌, ◌⊎◌, inl, inr, Bool, true, false, not, ◌&&◌, ◌||◌, Option, none, some, List, [], ◌∷◌, ◌++◌,
  map, arith, str_eq, eq_iff, eq_refl, ltb, leb, ◌==◌, if◌then◌else◌, Bool-cases, is_some, is_empty,
  Error, Outcome, ok, fail, panic, ◌>>=◌, deref, >>=-eq-ok, deref-eq-ok, is_ok, eq-ok_of_is_ok,
}
use containerlab.Base.Lists.{length, length-append, elem, Distinct, elem-append, slice}
use containerlab.Base.GoMap.{
  GoMap, lookup, insert, keys, lookup-insert, elem-keys-insert, lookup-eq-none,
}
use containerlab.Types.Stages.{
  Stages, StageBase, Exec, has_commands, get_wait_for_stages, wait_for_create,
  wait_for_create_links, wait_for_configure, wait_for_healthy, wait_for_exit,
}

-- dependerNodeStage: a node, and the stage of it that waits.
pub record DependerNodeStage : Type 0 where
  pub depender : String
  pub stage : String

-- What the dependencies are made from: the part of a node's configuration that is read.
pub record NodeConfig : Type 0 where
  pub network_mode : String
  pub mgmt_ipv4_address : String
  pub mgmt_ipv6_address : String
  pub stages : Stages

pub record DependencyNode : Type 0 where
  pub config : NodeConfig
  pub stage_wg : GoMap ℕ
  pub must_wait : GoMap Bool
  pub depender : GoMap (List DependerNodeStage)

abbrev pub Manager : Type 0
Manager = GoMap DependencyNode

abbrev pub for_all_stages {ℓ} : {V : Type ℓ} → V → GoMap V
for_all_stages v = map (λ stage. (stage, v)) get_wait_for_stages

-- NewDependencyNode. A stage that is nil is dereferenced.
unfoldable pub new_dependency_node : NodeConfig → Outcome DependencyNode
new_dependency_node config = do
  create_links ← deref config.stages.create_links
  configure ← deref config.stages.configure
  healthy ← deref config.stages.healthy
  ok (record {
    config = config;
    stage_wg = for_all_stages 0;
    must_wait =
        (wait_for_create_links, has_commands create_links.execs)
        ∷ (wait_for_configure, has_commands configure.execs)
        ∷ (wait_for_healthy, has_commands healthy.execs)
        ∷ [];
    depender = for_all_stages [];
  })

-- AddNode
unfoldable pub add_node : Manager → String → NodeConfig → Outcome Manager
unfolding new_dependency_node
add_node dm name config = do node ← new_dependency_node config; ok (insert name node dm)

-- checkNodesExist, on one name, and GetNode.
unfoldable pub get_node : Manager → String → Outcome DependencyNode
get_node dm name = elim (lookup name dm) [ none ↦ fail Error.unknown_node | some node ↦ ok node ]

-- d.stageWG[stage].Add(1), on a wait group that may be missing.
unfoldable pub increase_dependency_wg : Manager → DependerNodeStage → Outcome Manager
increase_dependency_wg dm ns = do
  node ← deref (lookup ns.depender dm)
  wg ← deref (lookup ns.stage node.stage_wg)
  ok (insert ns.depender (record node { stage_wg = insert ns.stage (wg + 1) node.stage_wg }) dm)

-- m[k], with nil for a missing slice.
abbrev pub dependers_at : String → GoMap (List DependerNodeStage) → List DependerNodeStage
dependers_at stage m = elim (lookup stage m) [ none ↦ [] | some l ↦ l ]

abbrev pub with_depender : DependencyNode → String → DependerNodeStage → DependencyNode
with_depender node stage ns = record node {
  depender = insert stage (dependers_at stage node.depender ++ ns ∷ []) node.depender;
}

-- d.mustWait[stage] = true
unfoldable pub set_must_wait : Manager → String → String → Outcome Manager
set_must_wait dm name stage = do
  node ← deref (lookup name dm)
  ok (insert name (record node { must_wait = insert stage true node.must_wait }) dm)

-- d.AddDepender(dependerStage, depender, stage), where `dependee` names d. It returns no error.
unfoldable pub add_depender : Manager → String → String → String → String → Outcome Manager
unfolding increase_dependency_wg set_must_wait
add_depender dm dependee depender_stage depender stage = do
  let ns = (let r : DependerNodeStage = record { depender = depender; stage = depender_stage } in r)
  node ← deref (lookup dependee dm)
  dm' ← increase_dependency_wg (insert dependee (with_depender node stage ns) dm) ns
  set_must_wait dm' dependee stage

-- MustWait
unfoldable pub must_wait : DependencyNode → String → Bool
must_wait node state = elim (lookup state node.must_wait) [ none ↦ false | some b ↦ b ]

-- getStageWG: a missing wait group is made.
unfoldable pub get_stage_wg : DependencyNode → String → ℕ
get_stage_wg node stage = elim (lookup stage node.stage_wg) [ none ↦ 0 | some wg ↦ wg ]

-- WaitGroup.Done: a counter that would become negative panics.
abbrev pub wg_done : ℕ → Outcome ℕ
wg_done zero = panic
wg_done (suc n) = ok n

-- SignalDone
unfoldable pub signal_done : Manager → DependerNodeStage → Outcome Manager
unfolding get_stage_wg
signal_done dm ns = do
  node ← deref (lookup ns.depender dm)
  wg ← wg_done (get_stage_wg node ns.stage)
  ok (insert ns.depender (record node { stage_wg = insert ns.stage wg node.stage_wg }) dm)

-- The loop of Done over the dependers of the stage.
unfoldable pub signal_all : Manager → List DependerNodeStage → Outcome Manager
unfolding signal_done
signal_all dm [] = ok dm
signal_all dm (ns ∷ dependers) = do dm' ← signal_done dm ns; signal_all dm' dependers

-- The loop of Done, with the dependers that it runs over.
unfoldable pub signal_dependers : Manager → String → String → Outcome Manager
unfolding signal_all
signal_dependers dm name stage = do
  node ← deref (lookup name dm)
  signal_all dm (dependers_at stage node.depender)

-- EnterStage goes on when the counter of the stage is zero. The wait on a missing wait group is a
-- dereference of nil.
unfoldable pub may_enter : DependencyNode → String → Outcome Bool
may_enter node stage = do wg ← deref (lookup stage node.stage_wg); ok (wg == 0)

-- getExecs: the commands of a stage for one phase.
abbrev pub execs_of_phase : String → List Exec → List Exec
execs_of_phase phase [] = []
execs_of_phase phase (x ∷ execs) =
    if str_eq x.phase phase then x ∷ execs_of_phase phase execs else execs_of_phase phase execs

unfoldable pub stage_base : Stages → String → Outcome StageBase
stage_base s stage =
    if str_eq stage wait_for_create
    then deref s.create
    else if str_eq stage wait_for_create_links
    then deref s.create_links
    else if str_eq stage wait_for_configure
    then deref s.configure
    else if str_eq stage wait_for_healthy
    then deref s.healthy
    else if str_eq stage wait_for_exit
    then deref s.exit
    else fail Error.unknown_stage

unfoldable pub get_execs : DependencyNode → String → String → Outcome (List Exec)
unfolding stage_base
get_execs node stage exec_phase = do
  sb ← stage_base node.config.stages stage
  ok (execs_of_phase exec_phase sb.execs)

-- What runExecs calls: the splitting of a command into words, RunExec of the node, which is the method
-- of its kind, and RunExec of the host, on a command that is there. Nothing is assumed of them.
pub record Runner : Type 0 where
  pub shlex_split : String → Outcome (List String)
  pub node_run_exec : String → Option (List String) → Outcome (Unit {0})
  pub host_run_exec : List String → Outcome (Unit {0})

-- GetExecCmd, as runExecs uses its result: after an error the command is nil.
unfoldable pub exec_cmd : Runner → Exec → Option (List String)
exec_cmd R x = elim (R.shlex_split x.command) [ ok cmd ↦ some cmd | _ ↦ none ]

-- RunExec of nodes/host/host.go reads the command first.
unfoldable pub run_on_host : Runner → Option (List String) → Outcome (Unit {0})
run_on_host R none = panic
run_on_host R (some cmd) = R.host_run_exec cmd

-- One command of runExecs. A command with another target is left out.
unfoldable pub run_target : Runner → String → Exec → Outcome (Unit {0})
unfolding exec_cmd run_on_host
run_target R name x =
    if str_eq x.target "container"
    then R.node_run_exec name (exec_cmd R x)
    else if str_eq x.target "host"
    then run_on_host R (exec_cmd R x)
    else ok tt

-- The loop of runExecs: an error is logged, and the next command runs.
unfoldable pub run_targets : Runner → String → List Exec → Outcome (Unit {0})
run_targets R name [] = ok tt
run_targets R name (x ∷ execs) = elim (run_target R name x) [
  | panic ↦ panic
  | _ ↦ run_targets R name execs
]

-- runExecs. An error of getExecs is logged, with no commands.
unfoldable pub run_execs : Runner → DependencyNode → String → String → String → Outcome (Unit {0})
unfolding run_targets get_execs
run_execs R node name exec_phase stage = elim (get_execs node stage exec_phase) [
  | ok execs ↦ run_targets R name execs
  | fail error ↦ ok tt
  | panic ↦ panic
]

-- Done: the commands of the phase on-exit, and then the signals.
unfoldable pub done : Runner → Manager → String → String → Outcome Manager
unfolding run_execs signal_dependers
done R dm name stage = do
  node ← deref (lookup name dm)
  _ ← run_execs R node name "on-exit" stage
  signal_dependers dm name stage
