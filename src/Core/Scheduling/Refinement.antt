-- ===== src/Core/Scheduling/Refinement.antt =====
-- The program implements the plan: wait groups and signals allow the same runs.
use containerlab.DependencyManager.Node.{NodeConfig, DependencyNode, Manager, may_enter, must_wait}
use containerlab.DependencyManager.Node.Views.{is_known, known_node}
use containerlab.DependencyManager.Node.Keeping.{must_wait_of, signal_dependers-Keeps}
use containerlab.DependencyManager.Node.History.{Dependency, finished}
use containerlab.DependencyManager.Node.Signals.{
  all_finished, may_enter_lem, signal_dependers-Accounts,
}
use containerlab.Core.Dependencies.{create_nodes}
use containerlab.Core.Dependencies.Recording.{has_dependee}
use containerlab.Core.Dependencies.Starting.{AreComplete}
use containerlab.Core.Dependencies.Planned.{planned}
use containerlab.Core.Scheduling.{
  Pc, deploying, entry, Lab, advance, Move, enters, takes, completes, tests, Runs, start, more,
  scheduled,
}
use containerlab.Core.Scheduling.Places.{completion-ahead}
use containerlab.Core.Scheduling.Invariant.{has_behind}
use containerlab.Core.Scheduling.Ordering.{created_of}
use containerlab.Core.Scheduling.Plan.{
  Plan, go_on, all_behind, PlanMove, plan_enters, plan_takes, plan_completes, plan_tests, PlanRuns,
  plan_start, plan_more, view,
}
use containerlab.Core.Scheduling.Running.{Running}
use containerlab.Core.Scheduling.Fits.{Passed}
use containerlab.Core.Scheduling.Next.{entry-stage}
use containerlab.Core.Scheduling.Starting.{workers_of, Running-scheduled, Running-Runs}
use containerlab.Base.{
  ℕ, String, ◌≡◌, refl, sym, ap, ◌∙◌, subst, inl, inr, Bool, true, some, List, [], ◌∷◌, arith,
  eq_refl, if◌then◌else◌, Bool-cases, ok,
}
use containerlab.Base.Lists.{length, Distinct}
use containerlab.Base.GoMap.{GoMap, lookup, insert, keys}

-- What a stage waits for has finished when, and only when, it is behind the other nodes.
all_behind-all_finished :
    (n s : String) (deps : List Dependency) (ds : List (String × String)) (dm : Manager)
    (a : GoMap Pc)
    → ((d p : String) → has_dependee d p deps ≡ true → must_wait_of dm d p ≡ true)
    → Passed ds dm a
    → ((d p : String) → finished d p ds ≡ true → has_behind p (lookup d a) ≡ true)
    → all_behind n s deps a ≡ all_finished n s deps ds
all_behind-all_finished n s [] ds dm a marked passed sound = refl
all_behind-all_finished n s (e ∷ deps) ds dm a marked passed sound =
    let rest =
      all_behind-all_finished n s deps ds dm a (λ d p h. marked d p (ground (arith, h))) passed
        sound in
    let must = marked e.dependee e.stage (ground (arith, eq_refl e.dependee, eq_refl e.stage)) in
    let same : has_behind e.stage (lookup e.dependee a) ≡ finished e.dependee e.stage ds =
      elim (Bool-cases (finished e.dependee e.stage ds)) [
        | inl now ↦ sound e.dependee e.stage now ∙ sym now
        | inr pending ↦ elim (Bool-cases (has_behind e.stage (lookup e.dependee a))) [
          | inl gone ↦ absurd (cc (passed e.dependee e.stage gone must, pending))
          | inr stays ↦ stays ∙ sym pending
        ]
      ] in
    rw (same, rest) refl

module _ (deps : List Dependency) (ds : List (String × String)) (w c : ℕ) (s : Lab)
    (run : Running deps ds w c s) (must : String → String → Bool)
    (same_must : (n x : String) → must_wait_of s.dm n x ≡ must n x) where
  behind_finished :
      (n stage : String) → all_behind n stage deps s.places ≡ all_finished n stage deps ds
  behind_finished n stage =
      all_behind-all_finished n stage deps ds s.dm s.places run.marked run.passed run.inv.sound

  known_at : (n : String) (p : Pc) → lookup n s.places ≡ some p → is_known s.dm n ≡ true
  known_at n p at = run.inv.known n (rw at refl)

  same_test :
      (n stage : String) (node : DependencyNode)
      → lookup n s.dm ≡ some node
      → must_wait node stage ≡ must n stage
  unfolding must_wait_of
  same_test n stage node l = ground (arith, l, same_must n stage)

  may_enter_here :
      (n stage : String) (p q : Pc) (node : DependencyNode)
      → lookup n s.places ≡ some p
      → entry p ≡ some (stage, q)
      → lookup n s.dm ≡ some node
      → may_enter node stage ≡ ok (all_behind n stage deps s.places)
  may_enter_here n stage p q node at e l =
      may_enter_lem deps ds s.dm n stage node run.inv.accounts l
        (run.inv.wait_groups n stage (known_at n p at) (entry-stage p q stage e))
      ∙ ap ok (sym (behind_finished n stage))

  plan_of_Move : (t : Lab) → Move s t → PlanMove deps must (view s) (view t)
  unfolding advance go_on
  plan_of_Move t (enters n stage p q node at e l m same) =
      let free : all_behind n stage deps s.places ≡ true =
        cc (may_enter_here n stage p q node at e l, m) in
      plan_enters n stage p q at e free (ap view same)
  plan_of_Move t (takes n k at free same) = plan_takes n k at free (ap view same)
  plan_of_Move t (completes n stage p q dm at e d same) =
      plan_completes n stage p q at e (ap view same)
  plan_of_Move t (tests n stage p q r node at e l same) =
      plan_tests n stage p q r at e
        (ap view same ∙ ap (λ b. go_on (view s) n (if b then q else r)) (same_test n stage node l))

  Move-of_plan : (b : Plan) → PlanMove deps must (view s) b → (t : Lab) × Move s t × (view t ≡ b)
  unfolding advance go_on
  Move-of_plan b (plan_enters n stage p q at e free same) =
      let (node, l) = known_node s.dm n (known_at n p at) in
      (
        advance s n q,
        enters n stage p q node at e l (may_enter_here n stage p q node at e l ∙ ap ok free) refl,
        sym same,
      )
  Move-of_plan b (plan_takes n k at free same) = (
    record s { places = insert n deploying s.places; idle = k },
    takes n k at free refl,
    sym same,
  )
  Move-of_plan b (plan_completes n stage p q at e same) =
      let ahead = completion-ahead p q stage e in
      let (dm, d, a) =
        signal_dependers-Accounts deps ds s.dm n stage run.inv.accounts (known_at n p at)
          (elim (Bool-cases (finished n stage ds)) [
            | inl f ↦ absurd (ground (arith, rw at at (run.inv.sound n stage f), ahead))
            | inr f ↦ f
          ]) in
      (advance (record s { dm = dm }) n q, completes n stage p q dm at e d refl, sym same)
  Move-of_plan b (plan_tests n stage p q r at e same) =
      let (node, l) = known_node s.dm n (known_at n p at) in
      (
        advance s n (if must_wait node stage then q else r),
        tests n stage p q r node at e l refl,
        ap (λ b. go_on (view s) n (if b then q else r)) (same_test n stage node l) ∙ sym same,
      )

same_must-Move :
    (s t : Lab) → Move s t → (n x : String) → must_wait_of t.dm n x ≡ must_wait_of s.dm n x
unfolding advance
same_must-Move s t (enters n stage p q node at e l m same) y x = rw same refl
same_must-Move s t (takes n k at free same) y x = rw same refl
same_must-Move s t (completes n stage p q dm at e d same) y x =
    rw same ((signal_dependers-Keeps s.dm dm n stage d).same_must_wait y x)
same_must-Move s t (tests n stage p q r node at e l same) y x = rw same refl

same_must-Runs :
    (s t : Lab) → Runs s t → (n x : String) → must_wait_of t.dm n x ≡ must_wait_of s.dm n x
same_must-Runs s t start n x = refl
same_must-Runs s t (more {t = u} r m) n x = same_must-Move u t m n x ∙ same_must-Runs s u r n x

-- The states that a run goes through, as the plan sees them, the last one first.
abbrev pub views : {s t : Lab} → Runs s t → List Plan
views start = []
views (more {u = u} r m) = view u ∷ views r

-- The states that a run of the plan goes through, the last one first.
abbrev pub plan_states :
    {deps : List Dependency} {must : String → String → Bool} {a b : Plan}
    → PlanRuns deps must a b
    → List Plan
plan_states plan_start = []
plan_states (plan_more {c = c} r m) = c ∷ plan_states r

module _ (deps : List Dependency) (w c : ℕ) (s : Lab)
    (run : (ds : List (String × String)) × Running deps ds w c s) where
  plan_of_Runs :
      (t : Lab) (r : Runs s t)
      → (p : PlanRuns deps (must_wait_of s.dm) (view s) (view t)) × (plan_states p ≡ views r)
  plan_of_Runs t start = (plan_start, refl)
  plan_of_Runs t (more {t = u} r m) =
      let (ds, here) = Running-Runs deps w c s u run r in
      let (p, same) = plan_of_Runs u r in
      (
        plan_more p
            (plan_of_Move deps ds w c u here (must_wait_of s.dm) (same_must-Runs s u r) t m),
        ap (λ l. view t ∷ l) same,
      )

  Runs-of_plan :
      (b : Plan) (p : PlanRuns deps (must_wait_of s.dm) (view s) b)
      → (t : Lab) × (view t ≡ b) × (r : Runs s t) × (views r ≡ plan_states p)
  Runs-of_plan b plan_start = (s, refl, start, refl)
  Runs-of_plan b (plan_more {b = a} r m) =
      let (u, same, so_far, through) = Runs-of_plan a r in
      let (ds, here) = Running-Runs deps w c s u run so_far in
      let (t, last, end) =
        Move-of_plan deps ds w c u here (must_wait_of s.dm) (same_must-Runs s u so_far) b
          (subst (λ x. PlanMove deps (must_wait_of s.dm) x b) (sym same) m) in
      (t, end, more so_far last, ap (λ x. x ∷ views so_far) end ∙ ap (λ l. b ∷ l) through)

-- The scheduling of a lab of nodes with distinct names whose stages are all there, for which
-- createNodes returned no error, implements the plan over the planned dependencies, with any number
-- of workers: every run in which nothing fails goes through the same sequence of places and idle
-- workers as some run of the plan, and every run of the plan through the same sequence as some run
-- of the scheduling.
pub implements_plan :
    (nodes : GoMap NodeConfig) (dm : Manager) (max_workers : ℕ)
    → AreComplete nodes
    → Distinct (keys nodes)
    → create_nodes nodes ≡ ok dm
    → ((s : Lab) (r : Runs (scheduled dm max_workers) s)
        → (p : PlanRuns
            (planned nodes)
            (must_wait_of dm)
            (view (scheduled dm max_workers))
            (view s))
          × (plan_states p ≡ views r))
      × ((b : Plan)
            (p : PlanRuns (planned nodes) (must_wait_of dm) (view (scheduled dm max_workers)) b)
          → (s : Lab) × (view s ≡ b)
            × (r : Runs (scheduled dm max_workers) s) × (views r ≡ plan_states p))
unfolding scheduled
implements_plan nodes dm w c u e =
    let (records, ranks, ranked) = created_of nodes dm c u e in
    let running = Running-scheduled nodes dm w u records in
    (
      λ s r.
          plan_of_Runs (planned nodes) (workers_of dm w) (length dm) (scheduled dm w) ([], running)
            s r,
      λ b r.
          Runs-of_plan (planned nodes) (workers_of dm w) (length dm) (scheduled dm w) ([], running)
            b r,
    )
