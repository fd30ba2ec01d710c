-- ===== src/Core/Scheduling/Fits.antt =====
-- Which places fit the workers, and which stages have been finished, in a run where nothing fails.
use containerlab.DependencyManager.Node.{Manager}
use containerlab.DependencyManager.Node.Views.{is_known}
use containerlab.DependencyManager.Node.Keeping.{must_wait_of}
use containerlab.DependencyManager.Node.History.{finished}
use containerlab.Core.Scheduling.{Pc, entry, completion, test}
use containerlab.Core.Scheduling.Places.{behind}
use containerlab.Core.Scheduling.Invariant.{has_behind, Goes}
use containerlab.Core.Scheduling.Ordering.{has_failed}
use containerlab.Core.Scheduling.Counting.{
  held, total, total-insert, length-insert_known, keys-insert_known,
}
use containerlab.Base.{
  ℕ, ◌+◌, String, ◌≡◌, sym, ◌∙◌, subst, ◌⊎◌, inl, inr, true, false, some, List, ◌∷◌, arith, str_eq,
  eq_iff, eq_refl, Bool-cases, is_some,
}
use containerlab.Base.Lists.{length, elem, Distinct}
use containerlab.Base.GoMap.{GoMap, lookup, insert, keys, lookup-insert}

-- Each worker is idle or holds a node, no node has failed, and each node of the manager has one place.
pub record Fits (workers count : ℕ) (dm : Manager) (places : GoMap Pc) (idle : ℕ) : Type 0 where
  pub sized : idle + total held places ≡ workers
  pub counted : length places ≡ count
  pub distinct : Distinct (keys places)
  pub fine : (n : String) → has_failed (lookup n places) ≡ false
  pub placed : (n : String) → is_known dm n ≡ true → is_some (lookup n places) ≡ true

-- A stage that is behind a node and must be waited for has been finished.
abbrev pub Passed : List (String × String) → Manager → GoMap Pc → Type 0
Passed ds dm places =
    (n x : String)
    → has_behind x (lookup n places) ≡ true
    → must_wait_of dm n x ≡ true
    → finished n x ds ≡ true

pub Fits-insert :
    (w c : ℕ) (dm dm' : Manager) (a : GoMap Pc) (i j : ℕ) (n : String) (p q : Pc)
    → Fits w c dm a i
    → lookup n a ≡ some p
    → j + held q ≡ i + held p
    → has_failed (some q) ≡ false
    → ((m : String) → is_known dm' m ≡ is_known dm m)
    → Fits w c dm' (insert n q a) j
Fits-insert w c dm dm' a i j n p q f at moved fine same = record {
  sized = omega (arith, total-insert held n p q a at, f.sized, moved);
  counted = length-insert_known n p q a at ∙ f.counted;
  distinct = subst Distinct (sym (keys-insert_known n p q a at)) f.distinct;
  fine = λ m. ground (arith, lookup-insert n m q a, f.fine m, fine);
  placed = λ m k. ground (arith, lookup-insert n m q a, f.placed m (sym (same m) ∙ k));
}

pub Passed-Goes :
    (ds ds' : List (String × String)) (dm dm' : Manager) (a b : GoMap Pc) (n : String) (p q : Pc)
    → Passed ds dm a
    → Goes a b n p q
    → ((m x : String) → must_wait_of dm' m x ≡ must_wait_of dm m x)
    → ((m x : String) → finished m x ds ≡ true → finished m x ds' ≡ true)
    → ((x : String)
        → elem x (behind q) ≡ true
        → must_wait_of dm n x ≡ true
        → (elem x (behind p) ≡ true) ⊎ (finished n x ds' ≡ true))
    → Passed ds' dm' b
Passed-Goes ds ds' dm dm' a b n p q old g same later new m x h w = elim (Bool-cases (str_eq n m)) [
  | inr other ↦ later m x (old m x (ground (arith, g.is m, h, other)) (sym (same m x) ∙ w))
  | inl at ↦
      let e : n ≡ m = (eq_iff n m).0 at in
      let w' : must_wait_of dm n x ≡ true = rw e (sym (same m x) ∙ w) in
      subst (λ y. finished y x ds' ≡ true) e
        (elim (new x (ground (arith, g.is m, h, at)) w') [
          | inl before ↦ later n x (old n x (rw g.was before) w')
          | inr now ↦ now
        ])
]

pub behind_cases :
    (n x stage : String) (l : List String) (ds : List (String × String))
    → elem x (stage ∷ l) ≡ true
    → (elem x l ≡ true) ⊎ (finished n x ((n, stage) ∷ ds) ≡ true)
behind_cases n x stage l ds h = elim (Bool-cases (str_eq x stage)) [
  | inl same ↦ inr (ground (arith, same, eq_refl n))
  | inr other ↦ inl (ground (arith, h, other))
]

pub fine_entry :
    (p q : Pc) (stage : String) → entry p ≡ some (stage, q) → has_failed (some q) ≡ false
unfolding entry
fine_entry p q stage h = ground arith

pub fine_completion :
    (p q : Pc) (stage : String) → completion p ≡ some (stage, q) → has_failed (some q) ≡ false
unfolding completion
fine_completion p q stage h = ground arith

pub fine_test :
    (p q r : Pc) (stage : String)
    → test p ≡ some (stage, q, r)
    → (has_failed (some q) ≡ false) × (has_failed (some r) ≡ false)
unfolding test
fine_test p q r stage h = ground arith
