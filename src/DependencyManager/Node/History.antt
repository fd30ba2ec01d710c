-- ===== src/DependencyManager/Node/History.antt =====
-- The wait groups against the history: a counter is the number of recorded dependencies whose
-- dependee has not finished its stage.
use containerlab.DependencyManager.Node.{DependerNodeStage, Manager, add_depender}
use containerlab.DependencyManager.Node.Views.{wg_of, dependers_of, is_known, has_wg, is_ns}
use containerlab.DependencyManager.Node.Adding.{is_at, add_depender_lem}
use containerlab.Base.{
  ℕ, suc, ◌+◌, String, ◌≡◌, sym, ap, ◌∙◌, Bool, true, false, not, ◌&&◌, ◌||◌, List, [], ◌∷◌, ◌++◌,
  arith, if◌then◌else◌, ok,
}

-- One call of AddDepender.
pub record Dependency : Type 0 where
  pub dependee : String
  pub stage : String
  pub depender : DependerNodeStage

-- The dependers of stage p of node d, in the order in which they were added.
abbrev pub edges_of : String → String → List Dependency → List DependerNodeStage
edges_of d p [] = []
edges_of d p (e ∷ deps) =
    if is_at d p e.dependee e.stage then e.depender ∷ edges_of d p deps else edges_of d p deps

-- How often (n, s) is in the list.
abbrev pub count : String → String → List DependerNodeStage → ℕ
count n s [] = 0
count n s (ns ∷ l) = if is_ns n s ns then suc (count n s l) else count n s l

-- Has node d finished stage p?
abbrev pub finished : String → String → List (String × String) → Bool
finished d p [] = false
finished d p ((d', p') ∷ ds) = is_at d p d' p' || finished d p ds

-- The number of dependencies that stage s of node n still waits for.
abbrev pub waiting : String → String → List Dependency → List (String × String) → ℕ
waiting n s [] ds = 0
waiting n s (e ∷ deps) ds =
    if is_ns n s e.depender && not (finished e.dependee e.stage ds)
    then suc (waiting n s deps ds)
    else waiting n s deps ds

-- The nodes of the dependencies are known, and the dependers have wait groups for their stages.
abbrev pub AreKnown : Manager → List Dependency → Type 0
AreKnown dm [] = Unit
AreKnown dm (e ∷ deps) =
    (is_known dm e.dependee ≡ true)
    × (has_wg dm e.depender.depender e.depender.stage ≡ true)
    × AreKnown dm deps

-- The manager accounts for the dependencies `deps`, after the stages `ds` have been finished.
pub record Accounts (deps : List Dependency) (ds : List (String × String)) (dm : Manager)
    : Type 0 where
  pub lists : (d p : String) → dependers_of dm d p ≡ edges_of d p deps
  pub counters : (n s : String) → wg_of dm n s ≡ waiting n s deps ds
  pub known : AreKnown dm deps

edges_of-append :
    (d p : String) (deps : List Dependency) (e : Dependency)
    → edges_of d p (deps ++ e ∷ []) ≡ (
        if is_at d p e.dependee e.stage
        then edges_of d p deps ++ e.depender ∷ []
        else edges_of d p deps)
edges_of-append d p [] e = ground arith
edges_of-append d p (x ∷ deps) e = ground (arith, edges_of-append d p deps e)

waiting-append :
    (n s : String) (deps : List Dependency) (e : Dependency)
    → waiting n s (deps ++ e ∷ []) []
      ≡ (if is_ns n s e.depender then waiting n s deps [] + 1 else waiting n s deps [])
waiting-append n s [] e = ground arith
waiting-append n s (x ∷ deps) e = ground (arith, waiting-append n s deps e)

pub AreKnown-mono :
    (dm dm' : Manager) (deps : List Dependency)
    → ((n : String) → is_known dm' n ≡ is_known dm n)
    → ((n s : String) → has_wg dm n s ≡ true → has_wg dm' n s ≡ true)
    → AreKnown dm deps
    → AreKnown dm' deps
AreKnown-mono dm dm' [] k g h = tt
AreKnown-mono dm dm' (e ∷ deps) k g h = (
  k e.dependee ∙ h.0,
  g e.depender.depender e.depender.stage h.1,
  AreKnown-mono dm dm' deps k g h.2,
)

AreKnown-append :
    (dm : Manager) (deps : List Dependency) (e : Dependency)
    → AreKnown dm deps
    → is_known dm e.dependee ≡ true
    → has_wg dm e.depender.depender e.depender.stage ≡ true
    → AreKnown dm (deps ++ e ∷ [])
AreKnown-append dm [] e h k g = (k, g, tt)
AreKnown-append dm (x ∷ deps) e h k g = (h.0, h.1, AreKnown-append dm deps e h.2 k g)

-- In a manager that accounts for its dependencies and in which no stage is finished yet, a further
-- AddDepender of a known node, whose depender is known and has a wait group for the stage that
-- waits, succeeds, and its dependency is accounted for.
pub add_depender-Accounts :
    (deps : List Dependency) (dm : Manager) (e : Dependency)
    → Accounts deps [] dm
    → is_known dm e.dependee ≡ true
    → has_wg dm e.depender.depender e.depender.stage ≡ true
    → (dm' : Manager) × (add_depender dm e.dependee e.depender.stage e.depender.depender e.stage
        ≡ ok dm')
      × Accounts (deps ++ e ∷ []) [] dm'
add_depender-Accounts deps dm e a k g =
    let (dm', eq, added) = add_depender_lem dm e.dependee e.depender e.stage k g in
    (
      dm',
      eq,
      record {
        lists = λ d p.
            added.dependers d p
            ∙ ap
                (λ (l : List DependerNodeStage).
                  if is_at d p e.dependee e.stage then l ++ e.depender ∷ [] else l)
                (a.lists d p)
            ∙ sym (edges_of-append d p deps e);
        counters = λ n s.
            added.counters n s
            ∙ ap (λ (x : ℕ). if is_ns n s e.depender then x + 1 else x) (a.counters n s)
            ∙ sym (waiting-append n s deps e);
        known =
            AreKnown-append dm' deps e (AreKnown-mono dm dm' deps added.known added.kept_wg a.known)
              (added.known e.dependee ∙ k) (added.kept_wg e.depender.depender e.depender.stage g);
      },
    )
