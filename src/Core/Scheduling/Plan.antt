-- ===== src/Core/Scheduling/Plan.antt =====
-- What the scheduling promises, without wait groups and signals: a node goes into a stage when
-- everything that the stage waits for is behind the other nodes.
use containerlab.DependencyManager.Node.Views.{is_ns}
use containerlab.DependencyManager.Node.History.{Dependency}
use containerlab.Core.Scheduling.{Pc, queued, deploying, entry, completion, test, freed, Lab}
use containerlab.Core.Scheduling.Invariant.{has_behind}
use containerlab.Base.{
  ℕ, suc, ◌+◌, String, ◌≡◌, Bool, true, not, ◌&&◌, ◌||◌, some, List, [], ◌∷◌, if◌then◌else◌,
}
use containerlab.Base.GoMap.{GoMap, lookup, insert}

pub record Plan : Type 0 where
  pub places : GoMap Pc
  pub idle : ℕ

unfoldable pub go_on : Plan → String → Pc → Plan
go_on a n q = record { places = insert n q a.places; idle = a.idle + freed q }

-- Is everything that stage s of node n waits for behind the other nodes?
abbrev pub all_behind : String → String → List Dependency → GoMap Pc → Bool
all_behind n s [] a = true
all_behind n s (e ∷ deps) a =
    (not (is_ns n s e.depender) || has_behind e.stage (lookup e.dependee a))
    && all_behind n s deps a

-- A step of the plan, over the dependencies and the stages that must be waited for.
pub data PlanMove (deps : List Dependency) (must : String → String → Bool) (a b : Plan)
    : Type 0 where
  plan_enters :
      (n stage : String) (p q : Pc)
      → lookup n a.places ≡ some p
      → entry p ≡ some (stage, q)
      → all_behind n stage deps a.places ≡ true
      → b ≡ go_on a n q
      → PlanMove deps must a b
  plan_takes :
      (n : String) (k : ℕ)
      → lookup n a.places ≡ some queued
      → a.idle ≡ suc k
      → b ≡ record { places = insert n deploying a.places; idle = k }
      → PlanMove deps must a b
  plan_completes :
      (n stage : String) (p q : Pc)
      → lookup n a.places ≡ some p
      → completion p ≡ some (stage, q)
      → b ≡ go_on a n q
      → PlanMove deps must a b
  plan_tests :
      (n stage : String) (p q r : Pc)
      → lookup n a.places ≡ some p
      → test p ≡ some (stage, q, r)
      → b ≡ go_on a n (if must n stage then q else r)
      → PlanMove deps must a b

pub data PlanRuns (deps : List Dependency) (must : String → String → Bool) (a : Plan)
    : Plan → Type 0 where
  plan_start : PlanRuns deps must a a
  plan_more :
      {b c : Plan} → PlanRuns deps must a b → PlanMove deps must b c → PlanRuns deps must a c

-- What the plan sees of a lab.
abbrev pub view : Lab → Plan
view s = record { places = s.places; idle = s.idle }
