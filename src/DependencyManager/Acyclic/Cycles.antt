-- ===== src/DependencyManager/Acyclic/Cycles.antt =====
-- isAcyclic against cycles: a graph has a chain of dependers from a node to itself exactly where the
-- check fails.
use containerlab.DependencyManager.Acyclic.Pigeonhole.{length-le_of_Distinct}
use containerlab.DependencyManager.Acyclic.Rounds.{rounds_total, elem-keep_loop}
use containerlab.DependencyManager.Acyclic.Ranking.{
  rounds_sound, AllBelow, IsRanked, AllIn, IsClosedIn, IsClosedIn-next_round,
}
use containerlab.DependencyManager.Acyclic.{
  is_acyclic, Graph, remaining, leaf_nodes, cleanup, next_round, is_acyclic_rounds,
}
use containerlab.Base.{
  ℕ, zero, suc, ◌+◌, ◌<◌, String, ◌≡◌, refl, sym, subst, ◌⊎◌, inl, inr, Bool, true, false, ◌&&◌,
  ◌||◌, some, List, [], ◌∷◌, arith, str_eq, eq_iff, eq_refl, Bool-cases, is_empty,
}
use containerlab.Base.Lists.{length, elem, Distinct}
use containerlab.Base.GoMap.{keys}

-- `d` is a depender of `n`.
abbrev pub edge : String → String → Graph → Bool
edge n d [] = false
edge n d ((k, ds) ∷ g) = (str_eq n k && elem d ds) || edge n d g

-- A chain of dependers, of one step at least.
pub data Chain (g : Graph) : String → String → Type 0 where
  one : {a b : String} → edge a b g ≡ true → Chain g a b
  more : {a b c : String} → Chain g a b → edge b c g ≡ true → Chain g a c

below_of_elem :
    (r : String → ℕ) (b : ℕ) (d : String) (ds : List String)
    → AllBelow r b ds
    → elem d ds ≡ true
    → r d < b
below_of_elem r b d [] h e = cc
below_of_elem r b d (x ∷ ds) h e = elim (Bool-cases (str_eq d x)) [
  | inl same ↦ subst (λ m. r m < b) (sym ((eq_iff d x).0 same)) h.0
  | inr other ↦ below_of_elem r b d ds h.1 (ground arith)
]

pub below_of_edge :
    (r : String → ℕ) (g : Graph) (a b : String) → IsRanked r g → edge a b g ≡ true → r b < r a
below_of_edge r [] a b h e = cc
below_of_edge r ((k, ds) ∷ g) a b h e = elim (Bool-cases (str_eq a k && elem b ds)) [
  | inl here ↦
      subst (λ m. r b < r m) (sym ((eq_iff a k).0 (ground arith)))
        (below_of_elem r (r k) b ds h.0 (ground arith))
  | inr later ↦ below_of_edge r g a b h.1 (ground arith)
]

below_of_Chain :
    {g : Graph} {a b : String} (r : String → ℕ) → IsRanked r g → Chain g a b → r b < r a
below_of_Chain {g} {a} {b} r h (one e) = below_of_edge r g a b h e
below_of_Chain {g} {a} {b = c} r h (more {b = m} p e) =
    omega (arith, below_of_Chain r h p, below_of_edge r g m c h e)

-- One round keeps no edge that was not there.
edge-cleanup :
    (l : List String) (g : Graph) (a b : String)
    → edge a b (cleanup l (remaining g)) ≡ true
    → edge a b g ≡ true
unfolding cleanup remaining
edge-cleanup l [] a b e = e
edge-cleanup l ((k, []) ∷ g) a b e = ground (arith, edge-cleanup l g a b)
edge-cleanup l ((k, d ∷ ds) ∷ g) a b e =
    ground (arith, edge-cleanup l g a b, elem-keep_loop b l (d ∷ ds))

-- Where the check fails, a part of the graph is left whose nodes all have dependers in it.
record Core (g : Graph) : Type 0 where
  part : Graph
  leafless : is_empty (leaf_nodes part) ≡ true
  closed : IsClosedIn (keys part) part
  start : String
  start_in : elem start (keys part) ≡ true
  edges : (a b : String) → edge a b part ≡ true → edge a b g ≡ true

Core-of_false :
    (f : ℕ) (g : Graph) → IsClosedIn (keys g) g → is_acyclic_rounds f g ≡ some false → Core g
unfolding is_acyclic_rounds
Core-of_false zero g c e = cc
Core-of_false (suc f) [] c e = cc
Core-of_false (suc f) (x ∷ g) c e = elim (Bool-cases (is_empty (leaf_nodes (x ∷ g)))) [
  | inl stuck ↦ record {
    part = x ∷ g;
    leafless = stuck;
    closed = c;
    start = x.0;
    start_in = ground (arith, eq_refl x.0);
    edges = λ a b h. h;
  }
  | inr leaf ↦
      let k =
        Core-of_false f (next_round (x ∷ g)) (IsClosedIn-next_round (x ∷ g) c) (rw leaf at e) in
      record {
        part = k.part;
        leafless = k.leafless;
        closed = k.closed;
        start = k.start;
        start_in = k.start_in;
        edges = λ a b h.
            unfold next_round in edge-cleanup (leaf_nodes (x ∷ g)) (x ∷ g) a b (k.edges a b h);
      }
]

successor :
    (ks : List String) (g : Graph) (n : String)
    → is_empty (leaf_nodes g) ≡ true
    → IsClosedIn ks g
    → elem n (keys g) ≡ true
    → (d : String) × (elem d ks ≡ true) × (edge n d g ≡ true)
unfolding leaf_nodes
successor ks [] n l c e = cc
successor ks ((k, []) ∷ g) n l c e = cc
successor ks ((k, d ∷ ds) ∷ g) n l c e = elim (Bool-cases (str_eq n k)) [
  | inl same ↦ (d, c.0.0, ground (arith, eq_refl d))
  | inr other ↦ let (d', ed, ee) = successor ks g n l c.1 (ground arith) in (d', ed, ground arith)
]

-- Each visited node has a chain to the current one.
abbrev Visited : Graph → String → List String → Type 0
Visited g n [] = Unit
Visited g n (x ∷ v) = Chain g x n × Visited g n v

Visited-step :
    (g : Graph) (n d : String) (v : List String) → edge n d g ≡ true → Visited g n v → Visited g d v
Visited-step g n d [] e h = tt
Visited-step g n d (x ∷ v) e h = (more h.0 e, Visited-step g n d v e h.1)

Chain-of_Visited :
    (g : Graph) (n d : String) (v : List String) → Visited g n v → elem d v ≡ true → Chain g d n
Chain-of_Visited g n d [] h e = cc
Chain-of_Visited g n d (x ∷ v) h e = elim (Bool-cases (str_eq d x)) [
  | inl same ↦ subst (λ m. Chain g m n) (sym ((eq_iff d x).0 same)) h.0
  | inr other ↦ Chain-of_Visited g n d v h.1 (ground arith)
]

-- A walk along dependers that never leaves the nodes comes back to a node that it has visited.
walk :
    (fuel : ℕ) (g : Graph) (n : String) (v : List String)
    → is_empty (leaf_nodes g) ≡ true
    → IsClosedIn (keys g) g
    → Visited g n v
    → Distinct (n ∷ v)
    → AllIn (keys g) (n ∷ v)
    → length (keys g) < length (n ∷ v) + fuel
    → (m : String) × Chain g m m
walk zero g n v l c h d a lt = absurd (omega (arith, length-le_of_Distinct (keys g) (n ∷ v) d a))
walk (suc fuel) g n v l c h d a lt =
    let (x, ex, e) = successor (keys g) g n l c a.0 in
    let old : Visited g x (n ∷ v) = (one e, Visited-step g n x v e h) in
    elim (Bool-cases (elem x (n ∷ v))) [
      | inl seen ↦ (x, Chain-of_Visited g x x (n ∷ v) old seen)
      | inr fresh ↦ walk fuel g x (n ∷ v) l c old (fresh, d) (ex, a) (omega arith)
    ]

Chain-mono :
    {g g' : Graph} {a b : String}
    → ((x y : String) → edge x y g ≡ true → edge x y g' ≡ true)
    → Chain g a b
    → Chain g' a b
Chain-mono {a = a} {b = b} f (one e) = one (f a b e)
Chain-mono {b = c} f (more {b = m} p e) = more (Chain-mono f p) (f m c e)

-- A map that passes the check has no chain of dependers from a node to itself.
no_cycle :
    (g : Graph) (m : String)
    → Distinct (keys g)
    → is_acyclic_rounds (suc (length g)) g ≡ some true
    → ¬ Chain g m m
no_cycle g m d e p =
    let (r, h) = rounds_sound (suc (length g)) g d e in omega (arith, below_of_Chain r h p)

cycle_of_false :
    (g : Graph)
    → IsClosedIn (keys g) g
    → is_acyclic_rounds (suc (length g)) g ≡ some false
    → (m : String) × Chain g m m
cycle_of_false g c e =
    let k = Core-of_false (suc (length g)) g c e in
    let (m, p) =
      walk (length (keys k.part)) k.part k.start [] k.leafless k.closed tt (refl, tt)
        (k.start_in, tt) (omega arith) in
    (m, Chain-mono k.edges p)

-- On a map with distinct nodes, whose dependers are all nodes of it, either the check for cycles
-- returns true and no node has a chain of dependers to itself, or it returns false and some node has
-- one.
pub is_acyclic_iff_no_cycle :
    (g : Graph)
    → Distinct (keys g)
    → IsClosedIn (keys g) g
    → ((is_acyclic g ≡ some true) × ((m : String) → ¬ Chain g m m))
      ⊎ ((is_acyclic g ≡ some false) × (m : String) × Chain g m m)
unfolding is_acyclic
is_acyclic_iff_no_cycle g d c =
    let (b, e) = rounds_total (suc (length g)) g (omega arith) in decided b e
  where
    decided :
        (b : Bool)
        → is_acyclic_rounds (suc (length g)) g ≡ some b
        → ((is_acyclic g ≡ some true) × ((m : String) → ¬ Chain g m m))
          ⊎ ((is_acyclic g ≡ some false) × (m : String) × Chain g m m)
    decided true e = inl (e, λ m. no_cycle g m d e)
    decided false e = let (m, p) = cycle_of_false g c e in inr (e, m, p)
