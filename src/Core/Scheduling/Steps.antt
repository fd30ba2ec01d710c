-- ===== src/Core/Scheduling/Steps.antt =====
-- Every step keeps the invariant, so it holds in every state that a scheduled lab reaches.
use containerlab.Core.Scheduling.Places.{
  behind, test-behind, test-entered, abandonment-behind, abandonment-entered,
}
use containerlab.Types.Stages.{get_wait_for_stages}
use containerlab.DependencyManager.Node.{Manager, must_wait}
use containerlab.DependencyManager.Node.Views.{is_known, has_wg}
use containerlab.DependencyManager.Node.History.{Dependency, Accounts}
use containerlab.Core.Scheduling.{
  Pc, waiting, queued, deploying, test, Lab, advance, Move, enters, takes, completes, tests, Fault,
  abandons, leaves, moves, fails, Reach, here, next, all_waiting, scheduled,
}
use containerlab.Core.Scheduling.Invariant.{
  Inv, Goes-insert, Inv-Goes, ordered_here, Inv-enters, Inv-completes,
}
use containerlab.Base.{
  ℕ, String, ◌≡◌, refl, sym, subst, Bool, true, false, none, some, List, [], ◌∷◌, arith, eq_iff,
  if◌then◌else◌,
}
use containerlab.Base.Lists.{elem}
use containerlab.Base.GoMap.{lookup, insert}

pub Inv-takes :
    (deps : List Dependency) (ds : List (String × String)) (s : Lab) (n : String) (k : ℕ)
    → Inv deps ds s
    → lookup n s.places ≡ some queued
    → Inv deps ds (record s { places = insert n deploying s.places; idle = k })
Inv-takes deps ds s n k i at =
    Inv-Goes deps ds s (record s { places = insert n deploying s.places; idle = k }) n queued
      deploying i refl (Goes-insert s.places n queued deploying at) (λ x h. h)
      (λ x h. ordered_here deps ds s i n queued at x h)

pub Inv-tests :
    (deps : List Dependency) (ds : List (String × String)) (s : Lab) (i : Inv deps ds s)
    (n stage : String) (p q r : Pc) (b : Bool)
    → lookup n s.places ≡ some p
    → test p ≡ some (stage, q, r)
    → Inv deps ds (advance s n (if b then q else r))
unfolding advance
Inv-tests deps ds s i n stage p q r b at e =
    let (same, skipped) = test-behind p q r stage e in
    Inv-Goes deps ds s (advance s n (if b then q else r)) n p (if b then q else r) i refl
      (Goes-insert s.places n p (if b then q else r) at)
      (λ x h. elim b as (λ b. elem x (behind (if b then q else r)) ≡ true) [
        | true ↦ rw same h
        | false ↦ rw skipped (ground (arith, h))
      ])
      (λ x h. ordered_here deps ds s i n p at x (test-entered p q r stage x b e h))

Inv-Move :
    (deps : List Dependency) (ds : List (String × String)) (s t : Lab)
    → Inv deps ds s
    → Move s t
    → (ds' : List (String × String)) × Inv deps ds' t
Inv-Move deps ds s t i (enters n stage p q node at e l m same) =
    (ds, subst (Inv deps ds) (sym same) (Inv-enters deps ds s i n p at stage q node e l m))
Inv-Move deps ds s t i (takes n k at free same) =
    (ds, subst (Inv deps ds) (sym same) (Inv-takes deps ds s n k i at))
Inv-Move deps ds s t i (completes n stage p q dm at e d same) = (
  (n, stage) ∷ ds,
  subst (Inv deps ((n, stage) ∷ ds)) (sym same) (Inv-completes deps ds s i n p at stage q dm e d),
)
Inv-Move deps ds s t i (tests n stage p q r node at e l same) = (
  ds,
  subst (Inv deps ds) (sym same) (Inv-tests deps ds s i n stage p q r (must_wait node stage) at e),
)

Inv-Fault :
    (deps : List Dependency) (ds : List (String × String)) (s t : Lab)
    → Inv deps ds s
    → Fault s t
    → Inv deps ds t
unfolding advance
Inv-Fault deps ds s t i (abandons n p q at e same) = subst (Inv deps ds) (sym same) (
    Inv-Goes deps ds s (advance s n q) n p q i refl (Goes-insert s.places n p q at)
      (λ x h. abandonment-behind p q x e h)
      (λ x h. ordered_here deps ds s i n p at x (abandonment-entered p q x e h)))
Inv-Fault deps ds s t i (leaves k free same) = subst (Inv deps ds) (sym same) (record {
  accounts = i.accounts;
  sound = i.sound;
  ordered = i.ordered;
  known = i.known;
  wait_groups = i.wait_groups;
})

pub Inv-Reach :
    (deps : List Dependency) (s t : Lab)
    → ((ds : List (String × String)) × Inv deps ds s)
    → Reach s t
    → (ds : List (String × String)) × Inv deps ds t
Inv-Reach deps s t i here = i
Inv-Reach deps s t i (next {t = u} r (moves m)) =
    let (ds, j) = Inv-Reach deps s u i r in Inv-Move deps ds u t j m
Inv-Reach deps s t i (next {t = u} r (fails f)) =
    let (ds, j) = Inv-Reach deps s u i r in (ds, Inv-Fault deps ds u t j f)

pub lookup-all_waiting :
    (dm : Manager) (n : String)
    → lookup n (all_waiting dm) ≡ (if is_known dm n then some waiting else none)
unfolding is_known lookup
lookup-all_waiting [] n = refl
lookup-all_waiting ((k, node) ∷ dm) n = ground (arith, lookup-all_waiting dm n, eq_iff k n)

pub Inv-scheduled :
    (deps : List Dependency) (dm : Manager) (w : ℕ)
    → Accounts deps [] dm
    → ((n s : String)
        → is_known dm n ≡ true
        → elem s get_wait_for_stages ≡ true
        → has_wg dm n s ≡ true)
    → Inv deps [] (scheduled dm w)
unfolding scheduled
Inv-scheduled deps dm w a g = record {
  accounts = a;
  sound = λ n s f. cc;
  ordered = λ n s h. absurd (ground (arith, h, lookup-all_waiting dm n));
  known = λ n h. ground (arith, h, lookup-all_waiting dm n);
  wait_groups = g;
}
