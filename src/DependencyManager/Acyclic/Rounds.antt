-- ===== src/DependencyManager/Acyclic/Rounds.antt =====
-- What one round of isAcyclic leaves over, and that the rounds come to an end.
use containerlab.DependencyManager.Acyclic.{
  Graph, remaining, leaf_nodes, keep_loop, cleanup, next_round, is_acyclic_rounds, is_acyclic,
}
use containerlab.Base.{
  ℕ, zero, suc, ◌+◌, ◌<◌, String, ◌≡◌, refl, inl, inr, Bool, true, false, not, ◌&&◌, ◌||◌, some,
  List, [], ◌∷◌, arith, eq_iff, Bool-cases, is_empty,
}
use containerlab.Base.Lists.{length, elem, Distinct}
use containerlab.Base.GoMap.{keys}

length-remaining : (g : Graph) → length (remaining g) + length (leaf_nodes g) ≡ length g
unfolding remaining leaf_nodes
length-remaining [] = omega arith
length-remaining ((n, ds) ∷ g) = ground (arith, length-remaining g)

keys-cleanup : (l : List String) (g : Graph) → keys (cleanup l g) ≡ keys g
unfolding cleanup
keys-cleanup l [] = refl
keys-cleanup l ((n, ds) ∷ g) = cc (keys-cleanup l g)

length-cleanup : (l : List String) (g : Graph) → length (cleanup l g) ≡ length g
unfolding cleanup
length-cleanup l [] = refl
length-cleanup l ((n, ds) ∷ g) = cc (length-cleanup l g)

pub length-next_round : (g : Graph) → length (next_round g) + length (leaf_nodes g) ≡ length g
unfolding next_round
length-next_round g = omega (arith, length-remaining g, length-cleanup (leaf_nodes g) (remaining g))

pub elem-keep_loop :
    (x : String) (l ds : List String) → elem x (keep_loop l ds) ≡ (not (elem x l) && elem x ds)
unfolding keep_loop
elem-keep_loop x l [] = ground arith
elem-keep_loop x l (d ∷ ds) = ground (arith, elem-keep_loop x l ds, eq_iff x d)

-- The keys of a graph are its leaves and the keys that remain.
pub elem-keys :
    (x : String) (g : Graph)
    → elem x (keys g) ≡ (elem x (leaf_nodes g) || elem x (keys (remaining g)))
unfolding remaining leaf_nodes
elem-keys x [] = refl
elem-keys x ((n, ds) ∷ g) = ground (arith, elem-keys x g)

pub keys-next_round : (g : Graph) → keys (next_round g) ≡ keys (remaining g)
unfolding next_round
keys-next_round g = keys-cleanup (leaf_nodes g) (remaining g)

pub elem-keys-next_round :
    (x : String) (g : Graph)
    → elem x (keys g) ≡ (elem x (leaf_nodes g) || elem x (keys (next_round g)))
elem-keys-next_round x g = rw keys-next_round (elem-keys x g)

Distinct-remaining : (g : Graph) → Distinct (keys g) → Distinct (keys (remaining g))
unfolding remaining
Distinct-remaining [] h = tt
Distinct-remaining ((n, []) ∷ g) h = Distinct-remaining g h.1
Distinct-remaining ((n, d ∷ ds) ∷ g) h =
    (ground (arith, elem-keys n g, h.0), Distinct-remaining g h.1)

pub Distinct-next_round : (g : Graph) → Distinct (keys g) → Distinct (keys (next_round g))
Distinct-next_round g h = rw keys-next_round (Distinct-remaining g h)

pub length_pos : (l : List String) → is_empty l ≡ false → 0 < length l
length_pos [] h = cc
length_pos (x ∷ l) h = omega arith

pub rounds_total :
    (f : ℕ) (g : Graph) → length g < f → (b : Bool) × (is_acyclic_rounds f g ≡ some b)
unfolding is_acyclic_rounds
rounds_total zero g h = absurd (omega arith)
rounds_total (suc f) [] h = (true, refl)
rounds_total (suc f) (e ∷ g) h = elim (Bool-cases (is_empty (leaf_nodes (e ∷ g)))) [
  | inl cyclic ↦ (false, rw cyclic)
  | inr leaf ↦ rw leaf (rounds_total f (next_round (e ∷ g)) (smaller leaf))
]
  where
    smaller : is_empty (leaf_nodes (e ∷ g)) ≡ false → length (next_round (e ∷ g)) < f
    smaller leaf = omega (arith, length-next_round (e ∷ g), length_pos (leaf_nodes (e ∷ g)) leaf)

-- The check for cycles comes to an end: the rounds never run out of fuel.
pub is_acyclic_total : (g : Graph) → (b : Bool) × (is_acyclic g ≡ some b)
unfolding is_acyclic
is_acyclic_total g = rounds_total (suc (length g)) g (omega arith)
