-- ===== src/Types/Topology/StageLevels.antt =====
-- GetStages: the stages of a node are united over its levels.
use containerlab.Types.Stages.Defaults.{AreSet}
use containerlab.Types.Stages.Merging.{commands, StageName, field_at, waits, Unrepeated}
use containerlab.Types.Stages.{Exec, init_exec, WaitFor, Stages, contains}
use containerlab.Base.{
  ◌≡◌, Bool, true, false, ◌||◌, Option, none, some, List, [], ◌++◌, map, is_some,
}
use containerlab.Types.NodeDefinition.{NodeDefinition}
use containerlab.Types.Topology.{Topology, get_defaults, field_of}

-- Does the level list the dependency at this stage?
abbrev pub in_level : StageName → WaitFor → Option Stages → Bool
in_level x w none = false
in_level x w (some s) = contains (waits (field_at x s)) w

-- The commands of the level at this stage.
abbrev pub level_commands : StageName → Option Stages → List Exec
level_commands x none = []
level_commands x (some s) = commands (field_at x s)

-- Stages that are all there, list no dependency twice, list exactly some dependencies, and have
-- exactly some commands.
record Holds (lists : StageName → WaitFor → Bool) (execs : StageName → List Exec) (s : Stages)
    : Type 0 where
  complete : (x : StageName) → is_some (field_at x s) ≡ true
  unrepeated : (x : StageName) → Unrepeated (waits (field_at x s))
  listed : (x : StageName) (w : WaitFor) → contains (waits (field_at x s)) w ≡ lists x w
  ordered : (x : StageName) → commands (field_at x s) ≡ execs x

abbrev pub stages_of : Option NodeDefinition → Option Stages
stages_of = field_of (λ d. d.stages)

-- What GetStages promises of its result: no stage is nil, no dependency is listed twice, a
-- dependency is listed at a stage exactly where one of the four levels lists it there, the commands
-- are those of the four levels, the defaults' first and the node's last, with the default target
-- and phase where they have none, and so every command has a target and a phase.
pub record AreUnited (t : Topology) (d k g : Option NodeDefinition) (s : Stages) : Type 0 where
  pub complete : (x : StageName) → is_some (field_at x s) ≡ true
  pub unrepeated : (x : StageName) → Unrepeated (waits (field_at x s))
  pub listed :
      (x : StageName) (w : WaitFor)
      → contains (waits (field_at x s)) w ≡ (
          ((in_level x w (get_defaults t).stages || in_level x w (stages_of k))
            || in_level x w (stages_of g))
          || in_level x w (stages_of d))
  pub concatenated :
      (x : StageName)
      → commands (field_at x s)
        ≡ map init_exec (
            ((level_commands x (get_defaults t).stages ++ level_commands x (stages_of k))
              ++ level_commands x (stages_of g))
            ++ level_commands x (stages_of d))
  pub are_set : (x : StageName) → AreSet (commands (field_at x s))
