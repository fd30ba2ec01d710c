-- ===== src/Core/Scheduling.antt =====
-- core/clab.go: scheduleNodes and scheduleNodeWorkerF, as a step relation. Each node has a goroutine
-- that waits for its creation and then hands it to a worker over a channel without a buffer; the
-- worker keeps the node until it is over. A step is what one goroutine or worker does between two
-- points where others may go on.
pub mod Places
pub mod Invariant
pub mod Steps
pub mod Ordering
pub mod Counting
pub mod Fits
pub mod Running
pub mod Next
pub mod Finishing
pub mod Starting
pub mod Termination
pub mod Plan
pub mod Refinement
pub mod AnyWorkers
pub mod Samples
use containerlab.Types.Stages.{
  wait_for_create, wait_for_create_links, wait_for_configure, wait_for_healthy, wait_for_exit,
}
use containerlab.DependencyManager.Node.{
  DependencyNode, Manager, signal_dependers, may_enter, must_wait,
}
use containerlab.Base.{
  ℕ, zero, suc, ◌+◌, ◌-◌, ◌*◌, ◌/◌, ◌%◌, ◌^◌, ◌≤◌, ◌<◌, String, ◌≡◌, refl, sym, ap, ◌∙◌, subst, ◌≢◌,
  ◌↔◌, ◌⊎◌, inl, inr, Bool, true, false, not, ◌&&◌, ◌||◌, Option, none, some, List, [], ◌∷◌, ◌++◌,
  map, arith, str_eq, eq_iff, eq_refl, ltb, leb, ◌==◌, if◌then◌else◌, Bool-cases, is_some, is_empty,
  Error, Outcome, ok, fail, panic, ◌>>=◌, deref, >>=-eq-ok, deref-eq-ok, is_ok, eq-ok_of_is_ok,
}
use containerlab.Base.Lists.{length, length-append, elem, Distinct, elem-append, slice}
use containerlab.Base.GoMap.{
  GoMap, lookup, insert, keys, lookup-insert, elem-keys-insert, lookup-eq-none,
}

-- Where a node stands.
pub data Pc : Type 0 where
  waiting : Pc  -- its goroutine, before EnterStage of the creation
  queued : Pc  -- its goroutine, before the channel or waiting for an external container
  deploying : Pc  -- PreDeploy, Deploy and UpdateConfigWithRuntimeInfo
  created : Pc  -- before EnterStage of the links
  linking : Pc  -- DeployEndpoints
  linked : Pc  -- before EnterStage of the configuration
  configuring : Pc  -- PostDeploy
  configured : Pc  -- RunExecFromConfig, before the test of MustWait for health
  awaiting_health : Pc  -- before EnterStage of the health
  checking : Pc  -- the loop of IsHealthy
  checked : Pc  -- before the test of MustWait for the exit
  awaiting_exit : Pc  -- before EnterStage of the exit
  watching : Pc  -- the loop of GetContainerStatus
  over : Pc  -- the worker is free again
  failed_deploy : Pc  -- reported to nodeFailCh, and the worker is free again
  failed_links : Pc

-- The calls of EnterStage, with the stage.
unfoldable pub entry : Pc → Option (String × Pc)
entry waiting = some (wait_for_create, queued)
entry created = some (wait_for_create_links, linking)
entry linked = some (wait_for_configure, configuring)
entry awaiting_health = some (wait_for_healthy, checking)
entry awaiting_exit = some (wait_for_exit, watching)
entry _ = none

-- What a worker does before a call of Done, with the stage: deployment, links, post-deployment, and
-- the loops on the health and on the exit.
unfoldable pub completion : Pc → Option (String × Pc)
completion deploying = some (wait_for_create, created)
completion linking = some (wait_for_create_links, linked)
completion configuring = some (wait_for_configure, configured)
completion checking = some (wait_for_healthy, checked)
completion watching = some (wait_for_exit, over)
completion _ = none

-- The tests of MustWait, with the stage, and where they lead if it must be waited for and if not.
unfoldable pub test : Pc → Option (String × Pc × Pc)
test configured = some (wait_for_healthy, awaiting_health, checked)
test checked = some (wait_for_exit, awaiting_exit, over)
test _ = none

-- The errors that end a loop or a node without a call of Done.
unfoldable pub abandonment : Pc → Option Pc
abandonment deploying = some failed_deploy
abandonment linking = some failed_links
abandonment checking = some checked
abandonment _ = none

-- One where the step gives the worker back, zero elsewhere.
unfoldable pub freed : Pc → ℕ
freed over = 1
freed failed_deploy = 1
freed failed_links = 1
freed _ = 0

pub record Lab : Type 0 where
  pub dm : Manager
  pub places : GoMap Pc
  pub idle : ℕ

-- The node goes on to q.
abbrev pub advance : Lab → String → Pc → Lab
unfolding freed
advance s n q = record s { places = insert n q s.places; idle = s.idle + freed q }

-- A step of a run in which nothing fails. `completes` is the loop of Done over the dependers; the
-- commands that Done runs before it are taken to return.
pub data Move (s t : Lab) : Type 0 where
  enters :
      (n stage : String) (p q : Pc) (node : DependencyNode)
      → lookup n s.places ≡ some p
      → entry p ≡ some (stage, q)
      → lookup n s.dm ≡ some node
      → may_enter node stage ≡ ok true
      → t ≡ advance s n q
      → Move s t
  takes :
      (n : String) (k : ℕ)
      → lookup n s.places ≡ some queued
      → s.idle ≡ suc k
      → t ≡ record s { places = insert n deploying s.places; idle = k }
      → Move s t
  completes :
      (n stage : String) (p q : Pc) (dm : Manager)
      → lookup n s.places ≡ some p
      → completion p ≡ some (stage, q)
      → signal_dependers s.dm n stage ≡ ok dm
      → t ≡ advance (record s { dm = dm }) n q
      → Move s t
  tests :
      (n stage : String) (p q r : Pc) (node : DependencyNode)
      → lookup n s.places ≡ some p
      → test p ≡ some (stage, q, r)
      → lookup n s.dm ≡ some node
      → t ≡ advance s n (if must_wait node stage then q else r)
      → Move s t

-- An error, or a worker that leaves as the context is cancelled.
pub data Fault (s t : Lab) : Type 0 where
  abandons :
      (n : String) (p q : Pc)
      → lookup n s.places ≡ some p
      → abandonment p ≡ some q
      → t ≡ advance s n q
      → Fault s t
  leaves : (k : ℕ) → s.idle ≡ suc k → t ≡ record s { idle = k } → Fault s t

pub data Step (s t : Lab) : Type 0 where
  moves : Move s t → Step s t
  fails : Fault s t → Step s t

pub data Reach (s : Lab) : Lab → Type 0 where
  here : Reach s s
  next : {t u : Lab} → Reach s t → Step t u → Reach s u

-- The runs in which nothing fails. A loop that polls the state or the health of a container is part of
-- the time between two moves, and nothing is said about whether it ends.
pub data Runs (s : Lab) : Lab → Type 0 where
  start : Runs s s
  more : {t u : Lab} → Runs s t → Move t u → Runs s u

abbrev pub all_waiting : Manager → GoMap Pc
all_waiting [] = []
all_waiting ((name, node) ∷ dm) = (name, waiting) ∷ all_waiting dm

-- scheduleNodes: every node waits, and there are no more workers than nodes.
unfoldable pub scheduled : Manager → ℕ → Lab
scheduled dm max_workers = record {
  dm = dm;
  places = all_waiting dm;
  idle = if ltb (length dm) max_workers then length dm else max_workers;
}
