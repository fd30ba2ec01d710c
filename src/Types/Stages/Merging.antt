-- ===== src/Types/Stages/Merging.antt =====
-- Stages.Merge unites the wait-for lists stage by stage, and InitDefaults fills the commands in.
use mathlib.Core.List.{append-nil}
use containerlab.Types.Stages.{
  Exec, WaitFor, StageBase, Stages, equals, contains, merge_wait_for, merge_base, merge_stage,
  merge,
}
use containerlab.Base.{
  ◌≡◌, refl, sym, ◌∙◌, ◌↔◌, inl, inr, true, false, ◌||◌, Option, none, some, List, [], ◌∷◌, ◌++◌,
  arith, eq_iff, Bool-cases, is_some, ok,
}

pub data StageName : Type 0 where
  creating linking configuring being_healthy exiting : StageName

abbrev pub field_at : StageName → Stages → Option StageBase
field_at creating s = s.create
field_at linking s = s.create_links
field_at configuring s = s.configure
field_at being_healthy s = s.healthy
field_at exiting s = s.exit

-- No stage is nil.
pub record IsComplete (s : Stages) : Type 0 where
  pub at : (x : StageName) → is_some (field_at x s) ≡ true

abbrev pub waits : Option StageBase → List WaitFor
waits none = []
waits (some b) = b.wait_for

-- Each dependency is listed once.
abbrev pub Unrepeated : List WaitFor → Type 0
Unrepeated [] = Unit
Unrepeated (w ∷ l) = (contains l w ≡ false) × Unrepeated l

equals_iff : (w v : WaitFor) → (equals w v ≡ true) ↔ (w ≡ v)
unfolding equals
equals_iff w v = ground (arith, eq_iff w.node v.node, eq_iff w.stage v.stage)

contains-snoc :
    (l : List WaitFor) (w v : WaitFor) → contains (l ++ w ∷ []) v ≡ (contains l v || equals w v)
unfolding contains
contains-snoc [] w v = ground arith
contains-snoc (x ∷ l) w v = ground (arith, contains-snoc l w v)

Unrepeated-snoc :
    (l : List WaitFor) (w : WaitFor)
    → contains l w ≡ false
    → Unrepeated l
    → Unrepeated (l ++ w ∷ [])
unfolding contains
Unrepeated-snoc [] w e h = (refl, tt)
Unrepeated-snoc (x ∷ l) w e h = (
  contains-snoc l w x ∙ ground (arith, h.0, e, equals_iff w x, equals_iff x w),
  Unrepeated-snoc l w (ground arith) h.1,
)

contains-merge_wait_for :
    (s l : List WaitFor) (w : WaitFor)
    → contains (merge_wait_for s l) w ≡ (contains s w || contains l w)
unfolding merge_wait_for
contains-merge_wait_for s [] w = ground arith
contains-merge_wait_for s (v ∷ l) w = elim (Bool-cases (contains s v)) [
  | inl old ↦ rw old (contains-merge_wait_for s l w ∙ ground (arith, old, equals_iff v w))
  | inr new ↦
      rw new (contains-merge_wait_for (s ++ v ∷ []) l w ∙ ground (arith, contains-snoc s v w))
]

Unrepeated-merge_wait_for : (s l : List WaitFor) → Unrepeated s → Unrepeated (merge_wait_for s l)
unfolding merge_wait_for
Unrepeated-merge_wait_for s [] h = h
Unrepeated-merge_wait_for s (v ∷ l) h = elim (Bool-cases (contains s v)) [
  | inl old ↦ rw old (Unrepeated-merge_wait_for s l h)
  | inr new ↦ rw new (Unrepeated-merge_wait_for (s ++ v ∷ []) l (Unrepeated-snoc s v new h))
]

abbrev pub merged : Option StageBase → Option StageBase → Option StageBase
merged s none = s
merged none (some o) = none
merged (some s) (some o) = some (merge_base s o)

abbrev pub commands : Option StageBase → List Exec
commands none = []
commands (some b) = b.execs

pub commands-merged :
    (s o : Option StageBase) → is_some s ≡ true → commands (merged s o) ≡ commands s ++ commands o
unfolding merge_base
commands-merged (some s) none h = sym (append-nil s.execs)
commands-merged (some s) (some o) h = refl
commands-merged none o h = cc

merge_stage-eq : (s o : Option StageBase) → is_some s ≡ true → merge_stage s o ≡ ok (merged s o)
unfolding merge_stage
merge_stage-eq s none h = refl
merge_stage-eq none (some o) h = cc
merge_stage-eq (some s) (some o) h = refl

-- Merging into stages that are all there succeeds, stage by stage.
pub merge_complete :
    (s o : Stages)
    → IsComplete s
    → (r : Stages) × (merge s o ≡ ok r)
      × ((x : StageName) → field_at x r ≡ merged (field_at x s) (field_at x o))
unfolding merge
merge_complete s o h = (
  record {
    create = merged s.create o.create;
    create_links = merged s.create_links o.create_links;
    configure = merged s.configure o.configure;
    healthy = merged s.healthy o.healthy;
    exit = merged s.exit o.exit;
  },
  ground (
    arith,
    merge_stage-eq s.configure o.configure (h.at configuring),
    merge_stage-eq s.create o.create (h.at creating),
    merge_stage-eq s.create_links o.create_links (h.at linking),
    merge_stage-eq s.healthy o.healthy (h.at being_healthy),
    merge_stage-eq s.exit o.exit (h.at exiting),
  ),
  elim [
    | creating ↦ refl
    | linking ↦ refl
    | configuring ↦ refl
    | being_healthy ↦ refl
    | exiting ↦ refl
  ],
)

pub is_some-merged : (s o : Option StageBase) → is_some s ≡ true → is_some (merged s o) ≡ true
is_some-merged s none h = h
is_some-merged none (some o) h = h
is_some-merged (some s) (some o) h = refl

pub contains-merged :
    (s o : Option StageBase) (w : WaitFor)
    → is_some s ≡ true
    → contains (waits (merged s o)) w ≡ (contains (waits s) w || contains (waits o) w)
unfolding merge_base contains
contains-merged s none w h = ground arith
contains-merged none (some o) w h = cc
contains-merged (some s) (some o) w h = contains-merge_wait_for s.wait_for o.wait_for w

pub Unrepeated-merged :
    (s o : Option StageBase) → Unrepeated (waits s) → Unrepeated (waits (merged s o))
unfolding merge_base
Unrepeated-merged s none h = h
Unrepeated-merged none (some o) h = h
Unrepeated-merged (some s) (some o) h = Unrepeated-merge_wait_for s.wait_for o.wait_for h
