-- ===== src/Core/Scheduling/Running.antt =====
-- The states of a run in which nothing fails.
use containerlab.DependencyManager.Node.{
  DependencyNode, Manager, signal_dependers, may_enter, must_wait,
}
use containerlab.DependencyManager.Node.Keeping.{must_wait_of, signal_dependers-Keeps}
use containerlab.DependencyManager.Node.History.{Dependency}
use containerlab.Core.Dependencies.Recording.{has_dependee}
use containerlab.Core.Scheduling.{
  Pc, queued, deploying, entry, completion, test, freed, Lab, advance, Move, enters, takes,
  completes, tests,
}
use containerlab.Core.Scheduling.Places.{behind, entry-places, completion-behind, test-behind}
use containerlab.Core.Scheduling.Invariant.{Inv, Goes-insert, Inv-enters, Inv-completes}
use containerlab.Core.Scheduling.Steps.{Inv-tests, Inv-takes}
use containerlab.Core.Scheduling.Counting.{entry-counts, completion-counts, test-counts}
use containerlab.Base.{
  ℕ, suc, ◌+◌, String, ◌≡◌, refl, sym, ◌∙◌, subst, inl, inr, Bool, true, false, some, List, ◌∷◌,
  arith, str_eq, eq_iff, if◌then◌else◌, Bool-cases, ok,
}
use containerlab.Base.Lists.{elem}
use containerlab.Base.GoMap.{lookup, insert}
use containerlab.Core.Scheduling.Fits.{
  Fits, Passed, Fits-insert, Passed-Goes, behind_cases, fine_entry, fine_completion, fine_test,
}

pub record Running (deps : List Dependency) (ds : List (String × String)) (workers count : ℕ)
    (s : Lab) : Type 0 where
  pub inv : Inv deps ds s
  pub fits : Fits workers count s.dm s.places s.idle
  pub passed : Passed ds s.dm s.places
  pub marked : (d p : String) → has_dependee d p deps ≡ true → must_wait_of s.dm d p ≡ true

module _ (deps : List Dependency) (ds : List (String × String)) (w c : ℕ) (s : Lab)
    (run : Running deps ds w c s) (n : String) where
  Running-enters :
      (stage : String) (p q : Pc) (node : DependencyNode)
      → lookup n s.places ≡ some p
      → entry p ≡ some (stage, q)
      → lookup n s.dm ≡ some node
      → may_enter node stage ≡ ok true
      → Running deps ds w c (advance s n q)
  unfolding advance
  Running-enters stage p q node at e l m =
      let (balance, lower) = entry-counts p q stage e in
      let (opened, kept) = entry-places p q stage e in
      record {
        inv = Inv-enters deps ds s run.inv n p at stage q node e l m;
        fits =
            Fits-insert w c s.dm s.dm s.places s.idle (s.idle + freed q) n p q run.fits at
              (omega (arith, balance)) (fine_entry p q stage e) (λ m. refl);
        passed =
            Passed-Goes ds ds s.dm s.dm s.places _ n p q run.passed (Goes-insert s.places n p q at)
              (λ m x. refl) (λ m x f. f) (λ x h k. inl (rw (← kept) h));
        marked = run.marked;
      }

  Running-takes :
      (k : ℕ)
      → lookup n s.places ≡ some queued
      → s.idle ≡ suc k
      → Running deps ds w c (record s { places = insert n deploying s.places; idle = k })
  Running-takes k at free = record {
    inv = Inv-takes deps ds s n k run.inv at;
    fits =
        Fits-insert w c s.dm s.dm s.places s.idle k n queued deploying run.fits at
          (omega (arith, free)) refl (λ m. refl);
    passed =
        Passed-Goes ds ds s.dm s.dm s.places _ n queued deploying run.passed
          (Goes-insert s.places n queued deploying at) (λ m x. refl) (λ m x f. f) (λ x h k. inl h);
    marked = run.marked;
  }

  Running-completes :
      (stage : String) (p q : Pc) (dm : Manager)
      → lookup n s.places ≡ some p
      → completion p ≡ some (stage, q)
      → signal_dependers s.dm n stage ≡ ok dm
      → Running deps ((n, stage) ∷ ds) w c (advance (record s { dm = dm }) n q)
  unfolding advance
  Running-completes stage p q dm at e d =
      let (balance, lower) = completion-counts p q stage e in
      let later = completion-behind p q stage e in
      let keeps = signal_dependers-Keeps s.dm dm n stage d in
      record {
        inv = Inv-completes deps ds s run.inv n p at stage q dm e d;
        fits =
            Fits-insert w c s.dm dm s.places s.idle (s.idle + freed q) n p q run.fits at
              (omega (arith, balance)) (fine_completion p q stage e) keeps.same_known;
        passed =
            Passed-Goes ds ((n, stage) ∷ ds) s.dm dm s.places _ n p q run.passed
              (Goes-insert s.places n p q at) keeps.same_must_wait (λ m x f. ground (arith, f))
              (λ x h k.
                behind_cases n x stage (behind p) ds (subst (λ l. elem x l ≡ true) later h));
        marked = λ d p h. keeps.same_must_wait d p ∙ run.marked d p h;
      }

  Running-tests :
      (stage : String) (p q r : Pc) (node : DependencyNode) (b : Bool)
      → must_wait node stage ≡ b
      → lookup n s.places ≡ some p
      → test p ≡ some (stage, q, r)
      → lookup n s.dm ≡ some node
      → Running deps ds w c (advance s n (if b then q else r))
  unfolding advance must_wait_of
  Running-tests stage p q r node true m at e l =
      let ((balance, lower), rest) = test-counts p q r stage e in
      let (kept, skipped) = test-behind p q r stage e in
      record {
        inv = Inv-tests deps ds s run.inv n stage p q r true at e;
        fits =
            Fits-insert w c s.dm s.dm s.places s.idle (s.idle + freed q) n p q run.fits at
              (omega (arith, balance)) (fine_test p q r stage e).0 (λ m. refl);
        passed =
            Passed-Goes ds ds s.dm s.dm s.places _ n p q run.passed (Goes-insert s.places n p q at)
              (λ m x. refl) (λ m x f. f) (λ x h k. inl (rw (← kept) h));
        marked = run.marked;
      }
  Running-tests stage p q r node false m at e l =
      let (rest, (balance, lower)) = test-counts p q r stage e in
      let (kept, skipped) = test-behind p q r stage e in
      record {
        inv = Inv-tests deps ds s run.inv n stage p q r false at e;
        fits =
            Fits-insert w c s.dm s.dm s.places s.idle (s.idle + freed r) n p r run.fits at
              (omega (arith, balance)) (fine_test p q r stage e).1 (λ m. refl);
        passed =
            Passed-Goes ds ds s.dm s.dm s.places _ n p r run.passed (Goes-insert s.places n p r at)
              (λ m x. refl) (λ m x f. f)
              (λ x h k. elim (Bool-cases (str_eq x stage)) [
                | inr other ↦
                    let h' : elem x (stage ∷ behind p) ≡ true =
                      subst (λ l. elem x l ≡ true) skipped h in
                    inl (ground (arith, h', other))
                | inl same ↦ absurd (cc (k, l, m, (eq_iff x stage).0 same))
              ]);
        marked = run.marked;
      }

pub Running-Move :
    (deps : List Dependency) (ds : List (String × String)) (w c : ℕ) (s t : Lab)
    → Running deps ds w c s
    → Move s t
    → (ds' : List (String × String)) × Running deps ds' w c t
Running-Move deps ds w c s t i (enters n stage p q node at e l m same) = (
  ds,
  subst (Running deps ds w c) (sym same) (Running-enters deps ds w c s i n stage p q node at e l m),
)
Running-Move deps ds w c s t i (takes n k at free same) =
    (ds, subst (Running deps ds w c) (sym same) (Running-takes deps ds w c s i n k at free))
Running-Move deps ds w c s t i (completes n stage p q dm at e d same) = (
  (n, stage) ∷ ds,
  subst (Running deps ((n, stage) ∷ ds) w c) (sym same)
      (Running-completes deps ds w c s i n stage p q dm at e d),
)
Running-Move deps ds w c s t i (tests n stage p q r node at e l same) = (
  ds,
  subst (Running deps ds w c) (sym same)
      (Running-tests deps ds w c s i n stage p q r node (must_wait node stage) refl at e l),
)
