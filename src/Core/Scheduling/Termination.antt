-- ===== src/Core/Scheduling/Termination.antt =====
-- Runs in which nothing fails can go on until all nodes are over.
use containerlab.DependencyManager.Node.{NodeConfig, Manager, must_wait}
use containerlab.DependencyManager.Node.Views.{is_known}
use containerlab.DependencyManager.Node.History.{Dependency}
use containerlab.Core.Dependencies.{create_nodes}
use containerlab.Core.Dependencies.Recording.{Records, is_known-get_nodes}
use containerlab.Core.Dependencies.Starting.{AreComplete}
use containerlab.Core.Dependencies.Planned.{planned}
use containerlab.Core.Dependencies.Progress.{AtStages}
use containerlab.Core.Scheduling.{
  Pc, queued, deploying, over, Lab, advance, Move, enters, takes, completes, tests, Runs, start,
  more, scheduled,
}
use containerlab.Core.Scheduling.Ordering.{created_of}
use containerlab.Core.Scheduling.Counting.{
  left, total, total-insert, entry-counts, completion-counts, test-counts,
}
use containerlab.Core.Scheduling.Running.{Running, Running-Move}
use containerlab.Core.Scheduling.Finishing.{goes_on}
use containerlab.Base.{
  ℕ, zero, suc, ◌≤◌, ◌<◌, String, ◌≡◌, sym, ap, ◌∙◌, ◌⊎◌, inl, inr, Bool, true, false, some, List,
  [], arith, ltb, if◌then◌else◌, ok,
}
use containerlab.Base.Lists.{length, elem, Distinct}
use containerlab.Base.GoMap.{GoMap, lookup, insert, keys}
use containerlab.Core.Scheduling.Starting.{
  length-get_nodes, workers_of, Running-scheduled, same_nodes-Runs, Running-Runs,
}

lower :
    (n : String) (p q : Pc) (a : GoMap Pc)
    → lookup n a ≡ some p
    → left q < left p
    → total left (insert n q a) < total left a
lower n p q a at l = omega (arith, total-insert left n p q a at, l)

-- Every move leaves fewer moves.
Move-lowers : (s t : Lab) → Move s t → total left t.places < total left s.places
unfolding advance
Move-lowers s t (enters n stage p q node at e l m same) =
    rw same (lower n p q s.places at (entry-counts p q stage e).1)
Move-lowers s t (takes n k at free same) =
    rw same (lower n queued deploying s.places at (omega arith))
Move-lowers s t (completes n stage p q dm at e d same) =
    rw same (lower n p q s.places at (completion-counts p q stage e).1)
Move-lowers s t (tests n stage p q r node at e l same) =
    let ((c, one), (d, other)) = test-counts p q r stage e in
    rw same (lower n p _ s.places at (either q r (must_wait node stage) one other))
  where
    either : {x : ℕ} (q r : Pc) (b : Bool) → left q < x → left r < x → left (if b then q else r) < x
    either q r true f g = f
    either q r false f g = g

Runs-trans : {s t u : Lab} → Runs s t → Runs t u → Runs s u
Runs-trans a start = a
Runs-trans a (more b m) = more (Runs-trans a b) m

idle_at_start : (a b : ℕ) → a ≤ b → (if ltb a b then a else b) ≡ a
idle_at_start a b h = ground arith

-- All nodes are over.
abbrev pub AllOver : Lab → Type 0
AllOver s = (n : String) → is_known s.dm n ≡ true → lookup n s.places ≡ some over

-- What lets every running lab that is not over go on.
abbrev pub Continues : List Dependency → ℕ → ℕ → Type 0
Continues deps w c =
    (ds : List (String × String)) (s : Lab)
    → Running deps ds w c s
    → AllOver s ⊎ ((t : Lab) × Move s t)

finish :
    (deps : List Dependency) (w c : ℕ)
    → Continues deps w c
    → (k : ℕ) (s : Lab) → total left s.places ≤ k
    → ((ds : List (String × String)) × Running deps ds w c s)
    → (t : Lab) × Runs s t × AllOver t
finish deps w c go zero s l (ds, run) = elim (go ds s run) [
  | inl all ↦ (s, start, all)
  | inr (t, m) ↦ absurd (omega (arith, Move-lowers s t m))
]
finish deps w c go (suc k) s l (ds, run) = elim (go ds s run) [
  | inl all ↦ (s, start, all)
  | inr (t, m) ↦
      let (u, rest, all) =
        finish deps w c go k t (omega (arith, Move-lowers s t m, l))
          (Running-Move deps ds w c s t run m) in
      (u, Runs-trans (more start m) rest, all)
]

-- What is promised: the run can go on until all nodes of the lab are over.
abbrev pub CanFinish : GoMap NodeConfig → Lab → Type 0
CanFinish nodes s =
    (t : Lab) × Runs s t
    × ((n : String) → elem n (keys nodes) ≡ true → lookup n t.places ≡ some over)

pub CanFinish-of_Continues :
    (nodes : GoMap NodeConfig) (dm : Manager) (w : ℕ) (s : Lab)
    → Distinct (keys nodes)
    → Records nodes (planned nodes) dm
    → Continues (planned nodes) (workers_of dm w) (length dm)
    → Runs (scheduled dm w) s
    → CanFinish nodes s
unfolding scheduled
CanFinish-of_Continues nodes dm w s u records go r =
    let here =
      Running-Runs (planned nodes) (workers_of dm w) (length dm) (scheduled dm w) s
        ([], Running-scheduled nodes dm w u records) r in
    let (t, rest, all) =
      finish (planned nodes) (workers_of dm w) (length dm) go (total left s.places) s (omega arith)
        here in
    (
      t,
      rest,
      λ n k. all n (
          same_nodes-Runs (scheduled dm w) t (Runs-trans r rest) n
          ∙ is_known-get_nodes dm n
          ∙ ap (λ (m : GoMap NodeConfig). elem n (keys m)) records.same_nodes
          ∙ k),
    )

pub length-Records :
    (nodes : GoMap NodeConfig) (dm : Manager)
    → Records nodes (planned nodes) dm
    → length dm ≡ length nodes
length-Records nodes dm r =
    sym (length-get_nodes dm) ∙ ap (λ (m : GoMap NodeConfig). length m) r.same_nodes

-- In a lab of nodes with distinct names whose stages are all there, for which createNodes returned no
-- error, and in which every dependency waits for one of the five stages (createNodes does not refuse
-- a wait-for entry with another stage or with none, which no node ever finishes), with at least as
-- many workers as nodes: whatever has been done so far in a run in which nothing fails, the run can
-- go on until all nodes of the lab are over.
pub all_over :
    (nodes : GoMap NodeConfig) (dm : Manager) (max_workers : ℕ) (s : Lab)
    → AreComplete nodes
    → Distinct (keys nodes)
    → create_nodes nodes ≡ ok dm
    → AtStages (planned nodes)
    → length nodes ≤ max_workers
    → Runs (scheduled dm max_workers) s
    → CanFinish nodes s
all_over nodes dm w s c u e at enough r =
    let (records, ranks, ranked) = created_of nodes dm c u e in
    let same = length-Records nodes dm records in
    let all_work = idle_at_start (length dm) w (omega (arith, same, enough)) in
    CanFinish-of_Continues nodes dm w s u records
      (λ ds t run.
        goes_on (planned nodes) ds (workers_of dm w) (length dm) t run (omega (arith, all_work))
          ranks ranked at)
      r
