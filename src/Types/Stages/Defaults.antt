-- ===== src/Types/Stages/Defaults.antt =====
-- Stages.InitDefaults.
use containerlab.Types.Stages.{Exec, StageBase, Stages, init_exec, init_stage, init_defaults}
use containerlab.Types.Stages.Merging.{
  StageName, creating, linking, configuring, being_healthy, exiting, field_at, IsComplete, waits,
  commands,
}
use containerlab.Base.{
  ◌≡◌, refl, ◌≢◌, true, Option, none, some, List, [], ◌∷◌, map, arith, eq_iff, is_some, ok,
}

abbrev pub initialised : Option StageBase → Option StageBase
initialised none = none
initialised (some s) = some (record s { execs = map init_exec s.execs })

-- Every command names its target and its phase.
abbrev pub AreSet : List Exec → Type 0
AreSet [] = Unit
AreSet (x ∷ xs) = (x.target ≢ "") × (x.phase ≢ "") × AreSet xs

AreSet-init : (xs : List Exec) → AreSet (map init_exec xs)
unfolding init_exec
AreSet-init [] = tt
AreSet-init (x ∷ xs) = (
  ground (arith, eq_iff x.target "", eq_iff "container" ""),
  ground (arith, eq_iff x.phase "", eq_iff "on-enter" ""),
  AreSet-init xs,
)

init_stage-eq : (s : Option StageBase) → is_some s ≡ true → init_stage s ≡ ok (initialised s)
unfolding init_stage
init_stage-eq none h = cc
init_stage-eq (some s) h = refl

pub init_defaults_complete :
    (s : Stages)
    → IsComplete s
    → (r : Stages) × (init_defaults s ≡ ok r)
      × ((x : StageName) → field_at x r ≡ initialised (field_at x s))
unfolding init_defaults
init_defaults_complete s h = (
  record {
    create = initialised s.create;
    create_links = initialised s.create_links;
    configure = initialised s.configure;
    healthy = initialised s.healthy;
    exit = initialised s.exit;
  },
  ground (
    arith,
    init_stage-eq s.configure (h.at configuring),
    init_stage-eq s.create (h.at creating),
    init_stage-eq s.create_links (h.at linking),
    init_stage-eq s.healthy (h.at being_healthy),
    init_stage-eq s.exit (h.at exiting),
  ),
  elim [
    | creating ↦ refl
    | linking ↦ refl
    | configuring ↦ refl
    | being_healthy ↦ refl
    | exiting ↦ refl
  ],
)

pub is_some-initialised : (s : Option StageBase) → is_some (initialised s) ≡ is_some s
is_some-initialised none = refl
is_some-initialised (some s) = refl

pub waits-initialised : (s : Option StageBase) → waits (initialised s) ≡ waits s
waits-initialised none = refl
waits-initialised (some s) = refl

pub AreSet-initialised : (s : Option StageBase) → AreSet (commands (initialised s))
AreSet-initialised none = tt
AreSet-initialised (some s) = AreSet-init s.execs

pub commands-initialised :
    (s : Option StageBase) → commands (initialised s) ≡ map init_exec (commands s)
commands-initialised none = refl
commands-initialised (some s) = refl
