-- ===== src/Core/Scheduling/AnyWorkers.antt =====
-- Where only creations wait, any number of workers is enough: waiting for the creation takes none.
use containerlab.Types.Stages.{wait_for_create}
use containerlab.DependencyManager.Node.{NodeConfig, Manager}
use containerlab.DependencyManager.Node.Views.{is_known, known_node}
use containerlab.DependencyManager.Node.History.{Dependency}
use containerlab.DependencyManager.Node.Signals.{all_finished}
use containerlab.Core.Dependencies.{create_nodes}
use containerlab.Core.Dependencies.Recording.{IsRankedBy}
use containerlab.Core.Dependencies.Starting.{AreComplete}
use containerlab.Core.Dependencies.Planned.{planned}
use containerlab.Core.Dependencies.Progress.{AtStages}
use containerlab.Core.Scheduling.{
  Pc, waiting, queued, deploying, created, linking, linked, configuring, configured,
  awaiting_health, checking, checked, awaiting_exit, watching, failed_deploy, failed_links, over,
  entry, Lab, Move, Runs, start, scheduled,
}
use containerlab.Core.Scheduling.Ordering.{created_of}
use containerlab.Core.Scheduling.Counting.{held, held_le, total}
use containerlab.Core.Scheduling.Running.{Running}
use containerlab.Core.Scheduling.Finishing.{is_over, leader, leader_free, Move-of_Next}
use containerlab.Core.Scheduling.Next.{Next-cases}
use containerlab.Core.Scheduling.Termination.{CanFinish, CanFinish-of_Continues, length-Records}
use containerlab.Core.Scheduling.Starting.{workers_of}
use containerlab.Base.{
  ℕ, zero, suc, ◌≤◌, String, ◌≡◌, refl, subst, ◌⊎◌, inl, inr, true, false, Option, none, some, List,
  [], ◌∷◌, arith, str_eq, eq_iff, eq_refl, ltb, ◌==◌, if◌then◌else◌, Bool-cases, ok,
}
use containerlab.Base.Lists.{length, Distinct}
use containerlab.Base.GoMap.{GoMap, lookup, keys, lookup-eq-none}

-- Every dependency makes a creation wait.
abbrev pub AtCreation : List Dependency → Type 0
AtCreation [] = Unit
AtCreation (e ∷ deps) = (str_eq e.depender.stage wait_for_create ≡ true) × AtCreation deps

free_later :
    (n stage : String) (deps : List Dependency) (ds : List (String × String))
    → AtCreation deps
    → str_eq stage wait_for_create ≡ false
    → all_finished n stage deps ds ≡ true
free_later n stage [] ds at h = refl
free_later n stage (e ∷ deps) ds (a, at) h = ground (
  arith,
  free_later n stage deps ds at h,
  a,
  h,
  eq_iff stage e.depender.stage,
  eq_iff e.depender.stage wait_for_create,
)

-- A node that a worker holds, if there is one.
holder :
    (a : GoMap Pc)
    → Distinct (keys a)
    → (total held a ≡ 0) ⊎ ((n : String) × (p : Pc) × (lookup n a ≡ some p) × (held p ≡ 1))
unfolding lookup
holder [] d = inl refl
holder ((k, p) ∷ a) (new, d) = elim (Bool-cases (held p == 1)) [
  | inl one ↦ inr (k, p, ground (arith, eq_refl k), ground (arith, one))
  | inr none_here ↦ elim (holder a d) [
    | inl rest ↦ inl (omega (arith, rest, held_le p, zero_of p none_here))
    | inr (n, q, l, h) ↦ inr (
      n,
      q,
      elim (Bool-cases (str_eq k n)) [
        | inl same ↦ absurd (cc ((eq_iff k n).0 same, lookup-eq-none k a new, l))
        | inr other ↦ rw other l
      ],
      h,
    )
  ]
]
  where
    zero_of : (p : Pc) → (held p == 1) ≡ false → held p ≡ 0
    zero_of p h = ground (arith, held_le p, h)

abbrev IsLater : ℕ → Option (String × Pc) → Type 0
IsLater h none = Unit
IsLater h (some (stage, q)) = h ≡ 1 → str_eq stage wait_for_create ≡ false

IsLater-entry : (p : Pc) → IsLater (held p) (entry p)
unfolding entry
IsLater-entry waiting = λ e. absurd (omega (arith, e))
IsLater-entry created = λ e. refl
IsLater-entry linked = λ e. refl
IsLater-entry awaiting_health = λ e. refl
IsLater-entry awaiting_exit = λ e. refl
IsLater-entry queued = tt
IsLater-entry deploying = tt
IsLater-entry linking = tt
IsLater-entry configuring = tt
IsLater-entry configured = tt
IsLater-entry checking = tt
IsLater-entry checked = tt
IsLater-entry watching = tt
IsLater-entry over = tt
IsLater-entry failed_deploy = tt
IsLater-entry failed_links = tt

-- A worker holds its node only behind the creation.
held-entry :
    (p q : Pc) (stage : String)
    → held p ≡ 1
    → entry p ≡ some (stage, q)
    → str_eq stage wait_for_create ≡ false
held-entry p q stage h e = subst (IsLater (held p)) e (IsLater-entry p) h

not_over_of_held : (p : Pc) → held p ≡ 1 → is_over (some p) ≡ false
not_over_of_held p h = ground (arith, h)

module _ (deps : List Dependency) (ds : List (String × String)) (w c : ℕ) (s : Lab)
    (run : Running deps ds w c s) (some_worker : 1 ≤ w) (r : String → ℕ)
    (ranked : IsRankedBy r deps) (at_stages : AtStages deps) (at_creation : AtCreation deps) where
  Move-of_holder :
      (n : String) (p : Pc) → lookup n s.places ≡ some p → held p ≡ 1 → (t : Lab) × Move s t
  Move-of_holder n p at h =
      let (node, l) = known_node s.dm n (run.inv.known n (rw at refl)) in
      Move-of_Next deps ds w c s run n p node at l (not_over_of_held p h)
        (λ stage q e. free_later n stage deps ds at_creation (held-entry p q stage h e))
        (λ e. absurd (cc (e, h))) (Next-cases p)

  any_goes_on :
      ((n : String) → is_known s.dm n ≡ true → lookup n s.places ≡ some over)
      ⊎ ((t : Lab) × Move s t)
  any_goes_on = elim (leader deps ds w c s run r) [
    | inl all ↦ inl all
    | inr (n, p, h) ↦ elim (holder s.places run.fits.distinct) [
      | inr (m, q, at, one) ↦ inr (Move-of_holder m q at one)
      | inl nobody ↦
          let (node, l) = known_node s.dm n h.in_manager in
          inr (
            Move-of_Next deps ds w c s run n p node h.at l h.not_over
              (leader_free deps ds w c s run r n p ranked at_stages h)
              (λ e. idle_of s.idle (omega (arith, run.fits.sized, nobody, some_worker)))
              (Next-cases p))
    ]
  ]
    where
      idle_of : (idle : ℕ) → 1 ≤ idle → (k : ℕ) × (idle ≡ suc k)
      idle_of zero h = absurd (omega (arith, h))
      idle_of (suc k) h = (k, refl)

workers_left : (a b : ℕ) → 1 ≤ a → 1 ≤ b → 1 ≤ (if ltb a b then a else b)
workers_left a b h k = ground (arith, h, k)

-- In a lab of nodes with distinct names whose stages are all there, for which createNodes returned no
-- error, where every dependency waits for one of the five stages (createNodes does not refuse a
-- wait-for entry with another stage or with none) and makes a creation wait, one worker or more is
-- enough: whatever has been done so far in a run in which nothing fails, the run can go on until all
-- nodes of the lab are over.
pub any_workers_suffice :
    (nodes : GoMap NodeConfig) (dm : Manager) (max_workers : ℕ) (s : Lab)
    → AreComplete nodes
    → Distinct (keys nodes)
    → create_nodes nodes ≡ ok dm
    → AtStages (planned nodes)
    → AtCreation (planned nodes)
    → 1 ≤ max_workers
    → Runs (scheduled dm max_workers) s
    → CanFinish nodes s
any_workers_suffice [] dm w s c u e at cr enough r = (s, start, λ n k. cc)
any_workers_suffice ((k, config) ∷ nodes) dm w s c u e at cr enough r =
    let lab = (k, config) ∷ nodes in
    let (records, ranks, ranked) = created_of lab dm c u e in
    let one = workers_left (length dm) w (omega (arith, length-Records lab dm records)) enough in
    CanFinish-of_Continues lab dm w s u records
      (λ ds t run.
        any_goes_on (planned lab) ds (workers_of dm w) (length dm) t run one ranks ranked at cr)
      r
