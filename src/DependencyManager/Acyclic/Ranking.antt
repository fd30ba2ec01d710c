-- ===== src/DependencyManager/Acyclic/Ranking.antt =====
-- isAcyclic against rankings: a graph has no cycle exactly when its nodes can be ranked so that each
-- depender stands below the node that it depends on.
use containerlab.DependencyManager.Acyclic.{
  Graph, remaining, leaf_nodes, keep_loop, cleanup, next_round, is_acyclic_rounds, is_acyclic,
}
use containerlab.DependencyManager.Acyclic.Rounds.{
  elem-keys, elem-keys-next_round, Distinct-next_round, length-next_round, length_pos,
}
use containerlab.Base.{
  ℕ, zero, suc, ◌<◌, String, ◌≡◌, refl, sym, subst, ◌↔◌, inl, inr, true, false, ◌||◌, some, List,
  [], ◌∷◌, arith, str_eq, eq_iff, eq_refl, if◌then◌else◌, Bool-cases, is_empty,
}
use containerlab.Base.Lists.{length, elem, Distinct}
use containerlab.Base.GoMap.{keys}

-- Every name of the list is ranked below the bound.
abbrev pub AllBelow : (String → ℕ) → ℕ → List String → Type 0
AllBelow r b [] = Unit
AllBelow r b (d ∷ ds) = (r d < b) × AllBelow r b ds

abbrev pub IsRanked : (String → ℕ) → Graph → Type 0
IsRanked r [] = Unit
IsRanked r ((n, ds) ∷ g) = AllBelow r (r n) ds × IsRanked r g

-- Every depender is a node of the list.
abbrev pub AllIn : List String → List String → Type 0
AllIn ks [] = Unit
AllIn ks (d ∷ ds) = (elem d ks ≡ true) × AllIn ks ds

abbrev pub IsClosedIn : List String → Graph → Type 0
IsClosedIn ks [] = Unit
IsClosedIn ks ((n, ds) ∷ g) = AllIn ks ds × IsClosedIn ks g

-- The leaves of a round go to the bottom, the other nodes above what the later rounds gave them.
abbrev raise : List String → (String → ℕ) → String → ℕ
raise l r n = if elem n l then 0 else suc (r n)

AllBelow-raise :
    (l : List String) (r : String → ℕ) (b : ℕ) (ds : List String)
    → AllBelow r b (keep_loop l ds)
    → AllBelow (raise l r) (suc b) ds
unfolding keep_loop
AllBelow-raise l r b [] h = tt
AllBelow-raise l r b (d ∷ ds) h = elim (Bool-cases (elem d l)) [
  | inl leaf ↦ rw leaf (omega arith, AllBelow-raise l r b ds (rw leaf at h))
  | inr other ↦
      let h' : (r d < b) × AllBelow r b (keep_loop l ds) = rw other at h in
      rw other (omega arith, AllBelow-raise l r b ds h'.1)
]

-- No node that remains is a leaf.
abbrev NoneIn : List String → List String → Type 0
NoneIn l [] = Unit
NoneIn l (k ∷ ks) = (elem k l ≡ false) × NoneIn l ks

IsRanked-raise :
    (l : List String) (r : String → ℕ) (g : Graph)
    → NoneIn l (keys (remaining g))
    → IsRanked r (cleanup l (remaining g))
    → IsRanked (raise l r) g
unfolding remaining cleanup
IsRanked-raise l r [] n h = tt
IsRanked-raise l r ((k, []) ∷ g) n h = (tt, IsRanked-raise l r g n h)
IsRanked-raise l r ((k, d ∷ ds) ∷ g) n h =
    let above : suc (r k) ≡ raise l r k = rw n.0 in
    (
      subst (λ b. AllBelow (raise l r) b (d ∷ ds)) above (AllBelow-raise l r (r k) (d ∷ ds) h.0),
      IsRanked-raise l r g n.1 h.1,
    )

NoneIn-weaken :
    (x : String) (l ks : List String) → elem x ks ≡ false → NoneIn l ks → NoneIn (x ∷ l) ks
NoneIn-weaken x l [] e h = tt
NoneIn-weaken x l (k ∷ ks) e h =
    (ground (arith, eq_iff x k, eq_iff k x), NoneIn-weaken x l ks (ground arith) h.1)

elem-remaining-false :
    (x : String) (g : Graph) → elem x (keys g) ≡ false → elem x (keys (remaining g)) ≡ false
elem-remaining-false x g e = ground (arith, elem-keys x g)

NoneIn-leaf_nodes : (g : Graph) → Distinct (keys g) → NoneIn (leaf_nodes g) (keys (remaining g))
unfolding leaf_nodes remaining
NoneIn-leaf_nodes [] h = tt
NoneIn-leaf_nodes ((k, []) ∷ g) h =
    NoneIn-weaken k (leaf_nodes g) (keys (remaining g)) (elem-remaining-false k g h.0)
      (NoneIn-leaf_nodes g h.1)
NoneIn-leaf_nodes ((k, d ∷ ds) ∷ g) h =
    (ground (arith, elem-keys k g, h.0), NoneIn-leaf_nodes g h.1)

-- A graph that passes the check has a ranking.
pub rounds_sound :
    (f : ℕ) (g : Graph)
    → Distinct (keys g)
    → is_acyclic_rounds f g ≡ some true
    → (r : String → ℕ) × IsRanked r g
unfolding is_acyclic_rounds
rounds_sound zero g h e = cc
rounds_sound (suc f) [] h e = (λ _. 0, tt)
rounds_sound (suc f) (x ∷ g) h e =
    let (r, k) =
      rounds_sound f (next_round (x ∷ g)) (Distinct-next_round (x ∷ g) h) (ground arith) in
    (
      raise (leaf_nodes (x ∷ g)) r,
      IsRanked-raise (leaf_nodes (x ∷ g)) r (x ∷ g) (NoneIn-leaf_nodes (x ∷ g) h) k,
    )

-- Without a leaf every node has a depender that is a node and stands below it.
depender_below :
    (ks : List String) (r : String → ℕ) (g : Graph) (n : String)
    → is_empty (leaf_nodes g) ≡ true
    → IsRanked r g
    → IsClosedIn ks g
    → elem n (keys g) ≡ true
    → (d : String) × (elem d ks ≡ true) × (r d < r n)
unfolding leaf_nodes
depender_below ks r [] n l h c e = cc
depender_below ks r ((k, []) ∷ g) n l h c e = cc
depender_below ks r ((k, d ∷ ds) ∷ g) n l h c e = elim (Bool-cases (str_eq n k)) [
  | inl same ↦ (d, c.0.0, subst (λ m. r d < r m) (sym ((eq_iff n k).0 same)) h.0.0)
  | inr other ↦ depender_below ks r g n l h.1 c.1 (ground arith)
]

leafless_empty :
    (r : String → ℕ) (g : Graph) (b : ℕ) (n : String)
    → is_empty (leaf_nodes g) ≡ true
    → IsRanked r g
    → IsClosedIn (keys g) g
    → elem n (keys g) ≡ true
    → r n < b
    → ⊥
leafless_empty r g zero n l h c e lt = elim lt [ ]
leafless_empty r g (suc b) n l h c e lt =
    let (d, ed, below) = depender_below (keys g) r g n l h c e in
    leafless_empty r g b d l h c ed (omega arith)

AllBelow-keep_loop :
    (l : List String) (r : String → ℕ) (b : ℕ) (ds : List String)
    → AllBelow r b ds
    → AllBelow r b (keep_loop l ds)
unfolding keep_loop
AllBelow-keep_loop l r b [] h = tt
AllBelow-keep_loop l r b (d ∷ ds) h = elim (Bool-cases (elem d l)) [
  | inl leaf ↦ rw leaf (AllBelow-keep_loop l r b ds h.1)
  | inr other ↦ rw other (h.0, AllBelow-keep_loop l r b ds h.1)
]

IsRanked-cleanup :
    (l : List String) (r : String → ℕ) (g : Graph)
    → IsRanked r g
    → IsRanked r (cleanup l (remaining g))
unfolding cleanup remaining
IsRanked-cleanup l r [] h = tt
IsRanked-cleanup l r ((k, []) ∷ g) h = IsRanked-cleanup l r g h.1
IsRanked-cleanup l r ((k, d ∷ ds) ∷ g) h =
    (AllBelow-keep_loop l r (r k) (d ∷ ds) h.0, IsRanked-cleanup l r g h.1)

-- A depender that is a node and no leaf remains.
AllIn-keep_loop :
    (l ks ks' ds : List String)
    → ((x : String) → elem x ks ≡ (elem x l || elem x ks'))
    → AllIn ks ds
    → AllIn ks' (keep_loop l ds)
unfolding keep_loop
AllIn-keep_loop l ks ks' [] split h = tt
AllIn-keep_loop l ks ks' (d ∷ ds) split h = elim (Bool-cases (elem d l)) [
  | inl leaf ↦ rw leaf (AllIn-keep_loop l ks ks' ds split h.1)
  | inr other ↦ rw other (ground (arith, split d, h.0), AllIn-keep_loop l ks ks' ds split h.1)
]

IsClosedIn-cleanup :
    (l ks ks' : List String) (g : Graph)
    → ((x : String) → elem x ks ≡ (elem x l || elem x ks'))
    → IsClosedIn ks g
    → IsClosedIn ks' (cleanup l (remaining g))
unfolding cleanup remaining
IsClosedIn-cleanup l ks ks' [] split h = tt
IsClosedIn-cleanup l ks ks' ((k, []) ∷ g) split h = IsClosedIn-cleanup l ks ks' g split h.1
IsClosedIn-cleanup l ks ks' ((k, d ∷ ds) ∷ g) split h =
    (AllIn-keep_loop l ks ks' (d ∷ ds) split h.0, IsClosedIn-cleanup l ks ks' g split h.1)

pub IsClosedIn-next_round :
    (g : Graph) → IsClosedIn (keys g) g → IsClosedIn (keys (next_round g)) (next_round g)
IsClosedIn-next_round g h =
    unfold next_round in
    IsClosedIn-cleanup (leaf_nodes g) (keys g) (keys (next_round g)) g
      (λ x. elem-keys-next_round x g) h

rounds_complete :
    (f : ℕ) (g : Graph) (r : String → ℕ)
    → IsClosedIn (keys g) g
    → IsRanked r g
    → length g < f
    → is_acyclic_rounds f g ≡ some true
unfolding is_acyclic_rounds
rounds_complete zero g r c h lt = absurd (omega arith)
rounds_complete (suc f) [] r c h lt = refl
rounds_complete (suc f) (x ∷ g) r c h lt = elim (Bool-cases (is_empty (leaf_nodes (x ∷ g)))) [
  | inl none_left ↦ absurd (
      leafless_empty r (x ∷ g) (suc (r x.0)) x.0 none_left h c (ground (arith, eq_refl x.0))
        (omega arith))
  | inr leaf ↦ rw leaf (
      rounds_complete f (next_round (x ∷ g)) r (IsClosedIn-next_round (x ∷ g) c)
        (IsRanked-cleanup (leaf_nodes (x ∷ g)) r (x ∷ g) h)
        (omega (arith, length-next_round (x ∷ g), length_pos (leaf_nodes (x ∷ g)) leaf)))
]

-- On a map with distinct nodes, whose dependers are all nodes of it, the check for cycles returns
-- true exactly where the nodes can be ranked with every depender below the node it depends on.
pub is_acyclic_iff_IsRanked :
    (g : Graph)
    → Distinct (keys g)
    → IsClosedIn (keys g) g
    → (is_acyclic g ≡ some true) ↔ ((r : String → ℕ) × IsRanked r g)
unfolding is_acyclic
is_acyclic_iff_IsRanked g h c = (
  rounds_sound (suc (length g)) g h,
  λ (r, k). rounds_complete (suc (length g)) g r c k (omega arith),
)
