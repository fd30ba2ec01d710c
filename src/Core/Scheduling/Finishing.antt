-- ===== src/Core/Scheduling/Finishing.antt =====
-- With a worker for each node, a run in which nothing fails never blocks before all nodes are over.
use containerlab.Core.Scheduling.Next.{
  failing, finishing, queueing, testing, completing, entering, Next, Next-cases, idle_worker,
}
use containerlab.Types.Stages.{get_wait_for_stages}
use containerlab.DependencyManager.Node.{DependencyNode, Manager, must_wait}
use containerlab.DependencyManager.Node.Views.{is_known, known_node, is_ns}
use containerlab.DependencyManager.Node.Keeping.{must_wait_of}
use containerlab.DependencyManager.Node.History.{Dependency, AreKnown, finished}
use containerlab.DependencyManager.Node.Signals.{
  all_finished, may_enter_lem, signal_dependers-Accounts,
}
use containerlab.DependencyManager.Check.{get_nodes}
use containerlab.Core.Dependencies.Recording.{IsRankedBy, has_dependee, is_known-get_nodes}
use containerlab.Core.Dependencies.Progress.{AtStages, highest}
use containerlab.Core.Scheduling.{
  Pc, queued, deploying, over, entry, Lab, advance, Move, enters, takes, completes, tests,
}
use containerlab.Core.Scheduling.Places.{completion-ahead}
use containerlab.Core.Scheduling.Invariant.{has_behind}
use containerlab.Core.Scheduling.Running.{Running}
use containerlab.Core.Scheduling.Fits.{Passed}
use containerlab.Base.{
  ℕ, suc, ◌≤◌, String, ◌≡◌, refl, sym, ap, ◌∙◌, ◌⊎◌, inl, inr, Bool, true, false, ◌&&◌, Option,
  none, some, List, [], ◌∷◌, arith, str_eq, eq_iff, eq_refl, if◌then◌else◌, Bool-cases, is_some, ok,
}
use containerlab.Base.Lists.{elem}
use containerlab.Base.GoMap.{GoMap, lookup, insert, keys}

abbrev pub is_over : Option Pc → Bool
is_over (some over) = true
is_over _ = false

-- The names of the list whose nodes are over.
over_names : GoMap Pc → List String → List String
over_names a [] = []
over_names a (n ∷ l) = if is_over (lookup n a) then n ∷ over_names a l else over_names a l

elem-over_names :
    (a : GoMap Pc) (m : String) (l : List String)
    → elem m (over_names a l) ≡ (elem m l && is_over (lookup m a))
unfolding over_names
elem-over_names a m [] = refl
elem-over_names a m (n ∷ l) =
    let rest = elem-over_names a m l in
    elim (Bool-cases (str_eq m n)) [
      | inl same ↦
          let there : is_over (lookup m a) ≡ is_over (lookup n a) =
            ap (λ x. is_over (lookup x a)) ((eq_iff m n).0 same) in
          ground (arith, rest, there, same)
      | inr other ↦ ground (arith, rest, other)
    ]

eq-over : (o : Option Pc) → is_over o ≡ true → o ≡ some over
eq-over (some over) h = refl
eq-over none h = cc
eq-over (some p) h = ground arith

behind_over : (s : String) → elem s get_wait_for_stages ≡ true → has_behind s (some over) ≡ true
behind_over s h = ground (arith, h)

-- What a node waits for has finished, where the nodes of higher rank are over.
all_finished_of_over :
    (r : String → ℕ) (ds : List (String × String)) (dm : Manager) (a : GoMap Pc) (n s : String)
    (deps : List Dependency)
    → IsRankedBy r deps
    → AtStages deps
    → AreKnown dm deps
    → ((d p : String) → has_dependee d p deps ≡ true → must_wait_of dm d p ≡ true)
    → Passed ds dm a
    → ((m : String) → is_known dm m ≡ true → is_over (lookup m a) ≡ false → r m ≤ r n)
    → all_finished n s deps ds ≡ true
all_finished_of_over r ds dm a n s [] ranked at known marked passed above = refl
all_finished_of_over r ds dm a n s (e ∷ deps) ranked (t, at) (k, w, known) marked passed above =
    let rest =
      all_finished_of_over r ds dm a n s deps (λ a b h. ranked a b (ground arith)) at known
        (λ d p h. marked d p (ground arith)) passed above in
    elim (Bool-cases (is_ns n s e.depender)) [
      | inr other ↦ ground (arith, other, rest)
      | inl mine ↦ elim (Bool-cases (is_over (lookup e.dependee a))) [
        | inl gone ↦
            let at_end : has_behind e.stage (lookup e.dependee a) ≡ true =
              rw (eq-over (lookup e.dependee a) gone) (behind_over e.stage t) in
            let must =
              marked e.dependee e.stage (ground (arith, eq_refl e.dependee, eq_refl e.stage)) in
            ground (arith, passed e.dependee e.stage at_end must, rest)
        | inr stays ↦ absurd (
            omega (
              arith,
              above e.dependee k stays,
              ranked e.dependee n
                  (ground (arith, mine, eq_refl e.dependee, eq_iff n e.depender.depender)),
            ))
      ]
    ]

module _ (deps : List Dependency) (ds : List (String × String)) (w c : ℕ) (s : Lab)
    (run : Running deps ds w c s) where
  -- A node goes on where the stage that it may enter next has nothing left to wait for, and a worker
  -- is idle if it needs one.
  pub Move-of_Next :
      (n : String) (p : Pc) (node : DependencyNode)
      → lookup n s.places ≡ some p
      → lookup n s.dm ≡ some node
      → is_over (some p) ≡ false
      → ((stage : String) (q : Pc)
          → entry p ≡ some (stage, q)
          → all_finished n stage deps ds ≡ true)
      → (p ≡ queued → (k : ℕ) × (s.idle ≡ suc k))
      → Next p
      → (t : Lab) × Move s t
  Move-of_Next n p node at l o free worker (entering stage q e in_stages) =
      let known : is_known s.dm n ≡ true = run.inv.known n (rw at refl) in
      let wg = run.inv.wait_groups n stage known in_stages in
      (
        advance s n q,
        enters n stage p q node at e l
            (may_enter_lem deps ds s.dm n stage node run.inv.accounts l wg ∙ ap ok (free stage q e))
            refl,
      )
  Move-of_Next n p node at l o free worker (completing stage q e) =
      let known : is_known s.dm n ≡ true = run.inv.known n (rw at refl) in
      let ahead = completion-ahead p q stage e in
      let (dm, d, a) =
        signal_dependers-Accounts deps ds s.dm n stage run.inv.accounts known
          (elim (Bool-cases (finished n stage ds)) [
            | inl f ↦ absurd (ground (arith, rw at at (run.inv.sound n stage f), ahead))
            | inr f ↦ f
          ]) in
      (advance (record s { dm = dm }) n q, completes n stage p q dm at e d refl)
  Move-of_Next n p node at l o free worker (testing stage q q' e) =
      (advance s n (if must_wait node stage then q else q'), tests n stage p q q' node at e l refl)
  Move-of_Next n p node at l o free worker (queueing e) =
      let (k, idle) = worker e in
      (
        record s { places = insert n deploying s.places; idle = k },
        takes n k (at ∙ ap some e) idle refl,
      )
  Move-of_Next n p node at l o free worker (finishing e) = absurd (cc (e, o))
  Move-of_Next n p node at l o free worker (failing e) = absurd (cc (run.fits.fine n, at, e))

  -- A node that is not over, and above all others that are not.
  pub record Leads (r : String → ℕ) (n : String) (p : Pc) : Type 0 where
    pub at : lookup n s.places ≡ some p
    pub not_over : is_over (some p) ≡ false
    pub in_manager : is_known s.dm n ≡ true
    pub above :
        (m : String) → is_known s.dm m ≡ true → is_over (lookup m s.places) ≡ false → r m ≤ r n

  pub leader :
      (r : String → ℕ)
      → ((n : String) → is_known s.dm n ≡ true → lookup n s.places ≡ some over)
        ⊎ ((n : String) × (p : Pc) × Leads r n p)
  leader r =
      let ks = keys (get_nodes s.dm) in
      elim (highest r (over_names s.places ks) ks) [
        | inl all ↦ inl (λ n k. eq-over (lookup n s.places) (
            ground
              (arith, all n (sym (is_known-get_nodes s.dm n) ∙ k), elem-over_names s.places n ks)))
        | inr (n, h) ↦
            let known : is_known s.dm n ≡ true = is_known-get_nodes s.dm n ∙ h.inside in
            let (p, at) = some_of (lookup n s.places) (run.fits.placed n known) in
            let out : is_over (lookup n s.places) ≡ false =
              ground (arith, h.left, h.inside, elem-over_names s.places n ks) in
            inr (
              n,
              p,
              record {
                at = at;
                not_over = ap is_over (sym at) ∙ out;
                in_manager = known;
                above = λ m k o.
                    h.above m (sym (is_known-get_nodes s.dm m) ∙ k)
                      (elem-over_names s.places m ks ∙ ground (arith, o));
              },
            )
      ]
    where
      some_of : (o : Option Pc) → is_some o ≡ true → (p : Pc) × (o ≡ some p)
      some_of none e = cc
      some_of (some p) e = (p, refl)

  -- Nothing is left for such a node to wait for.
  pub leader_free :
      (r : String → ℕ) (n : String) (p : Pc)
      → IsRankedBy r deps
      → AtStages deps
      → Leads r n p
      → (stage : String) (q : Pc) → entry p ≡ some (stage, q)
      → all_finished n stage deps ds ≡ true
  leader_free r n p ranked at_stages h stage q e =
      all_finished_of_over r ds s.dm s.places n stage deps ranked at_stages run.inv.accounts.known
        run.marked run.passed h.above

  -- With a worker for each node, either all nodes are over, or some node goes on.
  pub goes_on :
      (c ≤ w)
      → (r : String → ℕ) → IsRankedBy r deps
      → AtStages deps
      → ((n : String) → is_known s.dm n ≡ true → lookup n s.places ≡ some over)
        ⊎ ((t : Lab) × Move s t)
  goes_on enough r ranked at_stages = elim (leader r) [
    | inl all ↦ inl all
    | inr (n, p, h) ↦
        let (node, l) = known_node s.dm n h.in_manager in
        inr (
          Move-of_Next n p node h.at l h.not_over (leader_free r n p ranked at_stages h)
            (λ e.
              idle_worker w s.places s.idle n run.fits.sized
                (omega (arith, run.fits.counted, enough)) (h.at ∙ ap some e))
            (Next-cases p))
  ]
