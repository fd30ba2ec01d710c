-- ===== src/DependencyManager/Node/Signals.antt =====
-- Done and EnterStage: a stage is let through exactly when all that it waits for has finished.
use containerlab.Types.Stages.{Exec}
use containerlab.DependencyManager.Node.{
  Runner, run_targets, run_target, run_execs, done, get_execs, DependerNodeStage, DependencyNode,
  Manager, dependers_at, signal_all, signal_dependers, may_enter, get_stage_wg,
}
use containerlab.DependencyManager.Node.Views.{
  wg_of, dependers_of, is_known, has_wg, is_ns, SameShape, SameShape-trans, known_node, wg_node,
  signal_done_lem,
}
use containerlab.DependencyManager.Node.Adding.{is_at}
use containerlab.DependencyManager.Node.History.{
  Dependency, edges_of, count, finished, waiting, AreKnown, AreKnown-mono, Accounts,
}
use containerlab.Base.{
  ℕ, ◌+◌, String, ◌≡◌, refl, ◌∙◌, ◌⊎◌, inl, inr, Bool, true, false, not, ◌&&◌, ◌||◌, some, List, [],
  ◌∷◌, arith, eq_iff, eq_refl, ◌==◌, Bool-cases, Outcome, ok, fail, panic,
}
use containerlab.Base.GoMap.{lookup}

AllDependersKnown : Manager → List DependerNodeStage → Type 0
AllDependersKnown dm [] = Unit
AllDependersKnown dm (ns ∷ l) = (is_known dm ns.depender ≡ true) × AllDependersKnown dm l

AllDependersKnown-mono :
    (dm dm' : Manager) (l : List DependerNodeStage)
    → ((n : String) → is_known dm' n ≡ is_known dm n)
    → AllDependersKnown dm l
    → AllDependersKnown dm' l
unfolding AllDependersKnown
AllDependersKnown-mono dm dm' [] k h = tt
AllDependersKnown-mono dm dm' (ns ∷ l) k h =
    (k ns.depender ∙ h.0, AllDependersKnown-mono dm dm' l k h.1)

-- The loop of Done takes off each counter as much as its node is in the list, and never more.
signal_all_lem :
    (dm : Manager) (l : List DependerNodeStage) (rest : String → String → ℕ)
    → AllDependersKnown dm l
    → ((n s : String) → wg_of dm n s ≡ count n s l + rest n s)
    → (dm' : Manager) × (signal_all dm l ≡ ok dm')
      × SameShape dm dm'
      × ((n s : String) → wg_of dm' n s ≡ rest n s)
unfolding signal_all AllDependersKnown
signal_all_lem dm [] rest k w = (
  dm,
  refl,
  record { same_dependers = λ d p. refl; same_known = λ n. refl; kept_wg = λ n s e. e },
  λ n s. omega (arith, w n s),
)
signal_all_lem dm (ns ∷ l) rest k w =
    let left = count ns.depender ns.stage l + rest ns.depender ns.stage in
    let (dm₁, e₁, s₁, w₁) =
      signal_done_lem dm ns left k.0
        (w ns.depender ns.stage ∙ ground (arith, eq_refl ns.depender, eq_refl ns.stage)) in
    let (dm₂, e₂, s₂, w₂) =
      signal_all_lem dm₁ l rest (AllDependersKnown-mono dm dm₁ l s₁.same_known k.1)
        (λ n s. w₁ n s ∙ ground (arith, w n s, eq_iff n ns.depender, eq_iff s ns.stage)) in
    (dm₂, rw (e₁, signal_all) e₂, SameShape-trans s₁ s₂, w₂)

pub is_known_of_has_wg : (dm : Manager) (n s : String) → has_wg dm n s ≡ true → is_known dm n ≡ true
unfolding has_wg is_known
is_known_of_has_wg dm n s h = ground arith

AllDependersKnown-edges_of :
    (dm : Manager) (d p : String) (deps : List Dependency)
    → AreKnown dm deps
    → AllDependersKnown dm (edges_of d p deps)
unfolding AllDependersKnown
AllDependersKnown-edges_of dm d p [] h = tt
AllDependersKnown-edges_of dm d p (e ∷ deps) h = elim (Bool-cases (is_at d p e.dependee e.stage)) [
  | inl here ↦ rw here (
    is_known_of_has_wg dm e.depender.depender e.depender.stage h.1,
    AllDependersKnown-edges_of dm d p deps h.2,
  )
  | inr other ↦ rw other (AllDependersKnown-edges_of dm d p deps h.2)
]

waiting-finish :
    (n s d p : String) (deps : List Dependency) (ds : List (String × String))
    → finished d p ds ≡ false
    → waiting n s deps ds ≡ count n s (edges_of d p deps) + waiting n s deps ((d, p) ∷ ds)
waiting-finish n s d p [] ds h = omega arith
waiting-finish n s d p (e ∷ deps) ds h = ground (
  arith,
  waiting-finish n s d p deps ds h,
  eq_iff d e.dependee,
  eq_iff e.dependee d,
  eq_iff p e.stage,
  eq_iff e.stage p,
)

-- The loop of Done, where the stage is not finished yet.
pub signal_dependers-Accounts :
    (deps : List Dependency) (ds : List (String × String)) (dm : Manager) (d p : String)
    → Accounts deps ds dm
    → is_known dm d ≡ true
    → finished d p ds ≡ false
    → (dm' : Manager) × (signal_dependers dm d p ≡ ok dm') × Accounts deps ((d, p) ∷ ds) dm'
unfolding signal_dependers
signal_dependers-Accounts deps ds dm d p a k f =
    let (node, l) = known_node dm d k in
    let at : dependers_at p node.depender ≡ edges_of d p deps =
      unfold dependers_of in ground (arith, l, a.lists d p) in
    let (dm', e, s, w) =
      signal_all_lem dm (edges_of d p deps) (λ n s. waiting n s deps ((d, p) ∷ ds))
        (AllDependersKnown-edges_of dm d p deps a.known)
        (λ n s. a.counters n s ∙ waiting-finish n s d p deps ds f) in
    (
      dm',
      rw (l, signal_dependers) (rw at e),
      record {
        lists = λ d' p'. s.same_dependers d' p' ∙ a.lists d' p';
        counters = w;
        known = AreKnown-mono dm dm' deps s.same_known s.kept_wg a.known;
      },
    )

-- runExecs never returns an error.
run_targets-cases :
    (R : Runner) (name : String) (execs : List Exec)
    → (run_targets R name execs ≡ ok tt) ⊎ (run_targets R name execs ≡ panic)
unfolding run_targets
run_targets-cases R name [] = inl refl
run_targets-cases R name (x ∷ execs) =
    let rest = run_targets-cases R name execs in
    elim (run_target R name x)
      as (λ (o : Outcome (Unit {0})).
        ((elim o [ panic ↦ panic | _ ↦ run_targets R name execs ]) ≡ ok tt)
        ⊎ ((elim o [ panic ↦ panic | _ ↦ run_targets R name execs ]) ≡ panic)) [
          | ok _ ↦ rest
          | fail _ ↦ rest
          | panic ↦ inr refl
        ]

run_execs-cases :
    (R : Runner) (node : DependencyNode) (name exec_phase stage : String)
    → (run_execs R node name exec_phase stage ≡ ok tt)
      ⊎ (run_execs R node name exec_phase stage ≡ panic)
unfolding run_execs
run_execs-cases R node name exec_phase stage =
    elim (get_execs node stage exec_phase)
      as (λ (o : Outcome (List Exec)).
        ((elim o [ ok execs ↦ run_targets R name execs | fail error ↦ ok tt | panic ↦ panic ])
          ≡ ok tt)
        ⊎ ((elim o [ ok execs ↦ run_targets R name execs | fail error ↦ ok tt | panic ↦ panic ])
            ≡ panic)) [
              | ok execs ↦ run_targets-cases R name execs
              | fail error ↦ inl refl
              | panic ↦ inr refl
            ]

known_some :
    (dm : Manager) (d : String) (node : DependencyNode)
    → lookup d dm ≡ some node
    → is_known dm d ≡ true
unfolding is_known
known_some dm d node l = rw l refl

-- In a manager that accounts for its dependencies, Done of a stage that a node of it has not finished
-- yet either panics, as running the stage's commands of the phase on-exit does; or these run to their
-- end, Done returns without an error, and the manager accounts for the dependencies and that stage
-- as finished: the counter of a stage is the number of its dependencies that are open.
pub done-Accounts :
    (R : Runner) (deps : List Dependency) (ds : List (String × String)) (dm : Manager)
    (d p : String) (node : DependencyNode)
    → Accounts deps ds dm
    → lookup d dm ≡ some node
    → finished d p ds ≡ false
    → ((run_execs R node d "on-exit" p ≡ panic) × (done R dm d p ≡ panic))
      ⊎ ((run_execs R node d "on-exit" p ≡ ok tt)
          × (dm' : Manager) × (done R dm d p ≡ ok dm')
          × Accounts deps ((d, p) ∷ ds) dm')
unfolding done signal_dependers
done-Accounts R deps ds dm d p node a l f = elim (run_execs-cases R node d "on-exit" p) [
  | inr panics ↦ inl (panics, rw (l, done) (rw panics refl))
  | inl quiet ↦
      let (dm', e, after) = signal_dependers-Accounts deps ds dm d p a (known_some dm d node l) f in
      inr (quiet, dm', rw (l, done) (rw quiet (rw l at e)), after)
]

-- Have all dependees of stage s of node n finished?
abbrev pub all_finished : String → String → List Dependency → List (String × String) → Bool
all_finished n s [] ds = true
all_finished n s (e ∷ deps) ds =
    (not (is_ns n s e.depender) || finished e.dependee e.stage ds) && all_finished n s deps ds

waiting-eq-zero :
    (n s : String) (deps : List Dependency) (ds : List (String × String))
    → (waiting n s deps ds == 0) ≡ all_finished n s deps ds
waiting-eq-zero n s [] ds = refl
waiting-eq-zero n s (e ∷ deps) ds = ground (arith, waiting-eq-zero n s deps ds)

-- In a manager that accounts for its dependencies, a node may enter a stage that it has a wait group
-- for exactly when every stage that it was made to wait for has finished.
pub may_enter_lem :
    (deps : List Dependency) (ds : List (String × String)) (dm : Manager) (n s : String)
    (node : DependencyNode)
    → Accounts deps ds dm
    → lookup n dm ≡ some node
    → has_wg dm n s ≡ true
    → may_enter node s ≡ ok (all_finished n s deps ds)
unfolding may_enter wg_of get_stage_wg
may_enter_lem deps ds dm n s node a l h =
    let (node', w, l', lw) = wg_node dm n s h in
    let here : lookup s node.stage_wg ≡ some w = cc in
    rw here (ground (arith, l, a.counters n s, waiting-eq-zero n s deps ds, here))
