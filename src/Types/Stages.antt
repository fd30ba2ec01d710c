-- ===== src/Types/Stages.antt =====
-- types/stages.go: the deployment stages of a node, and how stages of several levels are merged.
-- A pointer that may be nil is an Option. Entries of WaitFor and Execs lists are taken as non-nil.
pub mod Merging
pub mod Defaults
use containerlab.Base.{
  ◌+◌, ◌-◌, String, Bool, false, not, ◌&&◌, ◌||◌, Option, none, some, List, [], ◌∷◌, ◌++◌, map,
  str_eq, if◌then◌else◌, is_empty, Outcome, ok, panic, ◌>>=◌, deref,
}
use containerlab.Base.GoMap.{GoMap}

-- WaitForStage: the names of the stages.
abbrev pub wait_for_create : String
wait_for_create = "create"

abbrev pub wait_for_create_links : String
wait_for_create_links = "create-links"

abbrev pub wait_for_configure : String
wait_for_configure = "configure"

abbrev pub wait_for_healthy : String
wait_for_healthy = "healthy"

abbrev pub wait_for_exit : String
wait_for_exit = "exit"

abbrev pub get_wait_for_stages : List String
get_wait_for_stages =
    wait_for_create ∷ wait_for_create_links ∷ wait_for_configure ∷ wait_for_healthy ∷ wait_for_exit
    ∷ []

pub record Exec : Type 0 where
  pub command : String
  pub target : String
  pub phase : String

pub record WaitFor : Type 0 where
  pub node : String
  pub stage : String

pub record StageBase : Type 0 where
  pub wait_for : List WaitFor
  pub execs : List Exec

pub record Stages : Type 0 where
  pub create : Option StageBase
  pub create_links : Option StageBase
  pub configure : Option StageBase
  pub healthy : Option StageBase
  pub exit : Option StageBase

abbrev empty_stage : StageBase
empty_stage = record { wait_for = []; execs = [] }

abbrev pub new_stages : Stages
new_stages = record {
  create = some empty_stage;
  create_links = some empty_stage;
  configure = some empty_stage;
  healthy = some empty_stage;
  exit = some empty_stage;
}

-- Execs.HasCommands
abbrev pub has_commands : List Exec → Bool
has_commands execs = not (is_empty execs)

-- WaitFor.Equals
unfoldable pub equals : WaitFor → WaitFor → Bool
equals w other = str_eq w.node other.node && str_eq w.stage other.stage

-- WaitForList.contains
unfoldable pub contains : List WaitFor → WaitFor → Bool
unfolding equals
contains [] wf = false
contains (entry ∷ wfl) wf = equals entry wf || contains wfl wf

-- The loop of StageBase.Merge over sb.WaitFor.
unfoldable pub merge_wait_for : List WaitFor → List WaitFor → List WaitFor
unfolding contains
merge_wait_for s [] = s
merge_wait_for s (wf ∷ rest) = merge_wait_for (if contains s wf then s else s ++ wf ∷ []) rest

-- StageBase.Merge
unfoldable pub merge_base : StageBase → StageBase → StageBase
unfolding merge_wait_for
merge_base s sb = record {
  wait_for = merge_wait_for s.wait_for sb.wait_for;
  execs = s.execs ++ sb.execs;
}

-- The Merge method of one stage of `Stages.Merge`: nothing happens if the other stage is nil, and a
-- nil receiver is dereferenced.
unfoldable pub merge_stage : Option StageBase → Option StageBase → Outcome (Option StageBase)
unfolding merge_base
merge_stage s none = ok s
merge_stage none (some other) = panic
merge_stage (some s) (some other) = ok (some (merge_base s other))

-- Stages.Merge
unfoldable pub merge : Stages → Stages → Outcome Stages
unfolding merge_stage
merge s other = do
  configure ← merge_stage s.configure other.configure
  create ← merge_stage s.create other.create
  create_links ← merge_stage s.create_links other.create_links
  healthy ← merge_stage s.healthy other.healthy
  exit ← merge_stage s.exit other.exit
  ok (record {
    create = create;
    create_links = create_links;
    configure = configure;
    healthy = healthy;
    exit = exit;
  })

-- Exec.InitDefaults
unfoldable pub init_exec : Exec → Exec
init_exec c = record {
  command = c.command;
  target = if str_eq c.target "" then "container" else c.target;
  phase = if str_eq c.phase "" then "on-enter" else c.phase;
}

-- Execs.InitDefaults, through the pointer to its stage.
unfoldable pub init_stage : Option StageBase → Outcome (Option StageBase)
unfolding init_exec
init_stage none = panic
init_stage (some s) = ok (some (record s { execs = map init_exec s.execs }))

-- Stages.InitDefaults
unfoldable pub init_defaults : Stages → Outcome Stages
unfolding init_stage
init_defaults s = do
  configure ← init_stage s.configure
  create ← init_stage s.create
  create_links ← init_stage s.create_links
  healthy ← init_stage s.healthy
  exit ← init_stage s.exit
  ok (record {
    create = create;
    create_links = create_links;
    configure = configure;
    healthy = healthy;
    exit = exit;
  })

-- Stages.GetWaitFor: the lists by the name of their stage.
unfoldable pub get_wait_for : Stages → Outcome (GoMap (List WaitFor))
get_wait_for s = do
  configure ← deref s.configure
  create ← deref s.create
  create_links ← deref s.create_links
  healthy ← deref s.healthy
  exit ← deref s.exit
  ok (
      (wait_for_configure, configure.wait_for)
      ∷ (wait_for_create, create.wait_for)
      ∷ (wait_for_create_links, create_links.wait_for)
      ∷ (wait_for_healthy, healthy.wait_for)
      ∷ (wait_for_exit, exit.wait_for)
      ∷ [])
