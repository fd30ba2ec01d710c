-- ===== src/Core/Scheduling/Invariant.antt =====
-- The reachable states: the manager accounts for the stages that are behind the nodes, and every
-- stage that a node has entered had nothing left to wait for.
use containerlab.Core.Scheduling.Places.{
  completion-entered, behind, entered, entry-places, completion-behind, completion-ahead,
}
use containerlab.Types.Stages.{get_wait_for_stages}
use containerlab.DependencyManager.Node.{DependencyNode, Manager, signal_dependers, may_enter}
use containerlab.DependencyManager.Node.Views.{is_known, has_wg}
use containerlab.DependencyManager.Node.Keeping.{signal_dependers-Keeps}
use containerlab.DependencyManager.Node.History.{Dependency, Accounts, finished}
use containerlab.DependencyManager.Node.Signals.{
  all_finished, signal_dependers-Accounts, may_enter_lem,
}
use containerlab.Core.Scheduling.{Pc, entry, completion, Lab, advance}
use containerlab.Base.{
  String, ◌≡◌, refl, sym, ◌∙◌, subst, inl, inr, Bool, true, false, ◌||◌, Option, none, some, List,
  [], ◌∷◌, arith, str_eq, eq_iff, ◌==◌, if◌then◌else◌, Bool-cases, is_some, ok, deref, >>=-eq-ok,
  deref-eq-ok,
}
use containerlab.Base.Lists.{elem}
use containerlab.Base.GoMap.{GoMap, lookup, insert, lookup-insert}

-- Has the node at this place, if there is one, the stage behind it?
abbrev pub has_behind : String → Option Pc → Bool
has_behind s none = false
has_behind s (some p) = elem s (behind p)

abbrev pub has_entered : String → Option Pc → Bool
has_entered s none = false
has_entered s (some p) = elem s (entered p)

pub record Inv (deps : List Dependency) (ds : List (String × String)) (s : Lab) : Type 0 where
  pub accounts : Accounts deps ds s.dm
  pub sound :
      (n stage : String) → finished n stage ds ≡ true → has_behind stage (lookup n s.places) ≡ true
  pub ordered :
      (n stage : String)
      → has_entered stage (lookup n s.places) ≡ true
      → all_finished n stage deps ds ≡ true
  pub known : (n : String) → is_some (lookup n s.places) ≡ true → is_known s.dm n ≡ true
  pub wait_groups :
      (n stage : String)
      → is_known s.dm n ≡ true
      → elem stage get_wait_for_stages ≡ true
      → has_wg s.dm n stage ≡ true

-- What a step does to the places: one node goes on.
pub record Goes (a b : GoMap Pc) (n : String) (p q : Pc) : Type 0 where
  pub was : lookup n a ≡ some p
  pub is : (m : String) → lookup m b ≡ (if str_eq n m then some q else lookup m a)

pub Goes-insert :
    (a : GoMap Pc) (n : String) (p q : Pc) → lookup n a ≡ some p → Goes a (insert n q a) n p q
Goes-insert a n p q h = record { was = h; is = λ m. lookup-insert n m q a }

-- A step that changes no manager keeps the invariant if its node loses no stage behind it, and enters
-- only stages that have nothing left to wait for.
pub Inv-Goes :
    (deps : List Dependency) (ds : List (String × String)) (s t : Lab) (n : String) (p q : Pc)
    → Inv deps ds s
    → t.dm ≡ s.dm
    → Goes s.places t.places n p q
    → ((stage : String) → elem stage (behind p) ≡ true → elem stage (behind q) ≡ true)
    → ((stage : String) → elem stage (entered q) ≡ true → all_finished n stage deps ds ≡ true)
    → Inv deps ds t
Inv-Goes deps ds s t n p q i same g b e = record {
  accounts = rw same i.accounts;
  sound = λ m stage f. ground (arith, g.is m, g.was, eq_iff n m, i.sound m stage f, b stage);
  ordered = λ m stage h. elim (Bool-cases (str_eq n m)) [
    | inl at ↦
        subst (λ x. all_finished x stage deps ds ≡ true) ((eq_iff n m).0 at)
          (e stage (ground (arith, g.is m, h, at)))
    | inr other ↦ i.ordered m stage (ground (arith, g.is m, h, other))
  ];
  known = λ m h. rw same (i.known m (ground (arith, g.is m, g.was, eq_iff n m, h)));
  wait_groups = λ m stage k h. rw same (i.wait_groups m stage (rw same at k) h);
}

all_finished-later :
    (n s d p : String) (deps : List Dependency) (ds : List (String × String))
    → all_finished n s deps ds ≡ true
    → all_finished n s deps ((d, p) ∷ ds) ≡ true
all_finished-later n s d p [] ds h = refl
all_finished-later n s d p (e ∷ deps) ds h =
    ground (arith, all_finished-later n s d p deps ds (ground arith), h)

sound_later :
    (ds : List (String × String)) (n stage : String) (p q : Pc) (a b : GoMap Pc)
    → lookup n a ≡ some p
    → Goes a b n p q
    → behind q ≡ stage ∷ behind p
    → ((m x : String) → finished m x ds ≡ true → has_behind x (lookup m a) ≡ true)
    → (m x : String) → finished m x ((n, stage) ∷ ds) ≡ true
    → has_behind x (lookup m b) ≡ true
sound_later ds n stage p q a b at g later old m x f =
    let grown : elem x (behind q) ≡ (str_eq x stage || elem x (behind p)) = rw later refl in
    ground (arith, at, g.is m, grown, eq_iff n m, eq_iff m n, eq_iff x stage, f, old m x)

ordered_later :
    (deps : List Dependency) (ds : List (String × String)) (n : String) (p q : Pc) (a b : GoMap Pc)
    → lookup n a ≡ some p
    → Goes a b n p q
    → ((x : String) → elem x (entered q) ≡ true → elem x (entered p) ≡ true)
    → ((m x : String) → has_entered x (lookup m a) ≡ true → all_finished m x deps ds ≡ true)
    → (m x : String) → has_entered x (lookup m b) ≡ true
    → all_finished m x deps ds ≡ true
ordered_later deps ds n p q a b at g e old m x h =
    old m x (ground (arith, at, g.is m, eq_iff n m, h, e x))

module _ (deps : List Dependency) (ds : List (String × String)) (s : Lab) (i : Inv deps ds s)
    (n : String) (p : Pc) (at : lookup n s.places ≡ some p) where
  pub ordered_here :
      (stage : String) → elem stage (entered p) ≡ true → all_finished n stage deps ds ≡ true
  ordered_here stage h = i.ordered n stage (rw at h)

  pub known_here : is_known s.dm n ≡ true
  known_here = i.known n (rw at refl)

  pub Inv-enters :
      (stage : String) (q : Pc) (node : DependencyNode)
      → entry p ≡ some (stage, q)
      → lookup n s.dm ≡ some node
      → may_enter node stage ≡ ok true
      → Inv deps ds (advance s n q)
  unfolding may_enter has_wg advance
  Inv-enters stage q node e l m =
      let (wg, f, rest) = >>=-eq-ok (deref (lookup stage node.stage_wg)) (λ wg. ok (wg == 0)) m in
      let has : has_wg s.dm n stage ≡ true = rw (l, has_wg) (rw (deref-eq-ok _ f) refl) in
      let (opened, kept) = entry-places p q stage e in
      let free : all_finished n stage deps ds ≡ true =
        ground (arith, may_enter_lem deps ds s.dm n stage node i.accounts l has, m) in
      Inv-Goes deps ds s (advance s n q) n p q i refl (Goes-insert s.places n p q at)
        (λ x h. rw kept h)
        (λ x h. elim (Bool-cases (str_eq x stage)) [
          | inl same ↦
              subst (λ y. all_finished n y deps ds ≡ true) (sym ((eq_iff x stage).0 same)) free
          | inr other ↦ ordered_here x (ground (arith, rw opened at h, other))
        ])

  pub Inv-completes :
      (stage : String) (q : Pc) (dm : Manager)
      → completion p ≡ some (stage, q)
      → signal_dependers s.dm n stage ≡ ok dm
      → Inv deps ((n, stage) ∷ ds) (advance (record s { dm = dm }) n q)
  unfolding advance
  Inv-completes stage q dm e d =
      let g = Goes-insert s.places n p q at in
      let ahead = completion-ahead p q stage e in
      let later = completion-behind p q stage e in
      let keeps = signal_dependers-Keeps s.dm dm n stage d in
      let (dm', d', a) =
        signal_dependers-Accounts deps ds s.dm n stage i.accounts known_here
          (elim (Bool-cases (finished n stage ds)) [
            | inl f ↦ absurd (ground (arith, rw at at (i.sound n stage f), ahead))
            | inr f ↦ f
          ]) in
      let same : dm' ≡ dm = cc in
      record {
        accounts = subst (Accounts deps ((n, stage) ∷ ds)) same a;
        sound = λ m x f.
            sound_later ds n stage p q s.places (advance (record s { dm = dm }) n q).places at g
              later i.sound m x f;
        ordered = λ m x h. all_finished-later m x n stage deps ds (
            ordered_later deps ds n p q s.places _ at g (λ y h. completion-entered p q stage y e h)
              i.ordered m x h);
        known =
            λ m h. keeps.same_known m ∙ i.known m (ground (arith, g.is m, g.was, eq_iff n m, h));
        wait_groups =
            λ m x k h. keeps.kept_wg m x (i.wait_groups m x (sym (keeps.same_known m) ∙ k) h);
      }
