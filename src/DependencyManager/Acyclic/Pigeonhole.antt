-- ===== src/DependencyManager/Acyclic/Pigeonhole.antt =====
-- A list without repetitions is no longer than a list that holds its names.
use containerlab.DependencyManager.Acyclic.Ranking.{AllIn}
use containerlab.Base.{
  ◌+◌, ◌≤◌, String, ◌≡◌, inl, inr, true, false, List, [], ◌∷◌, arith, str_eq, eq_iff, if◌then◌else◌,
  Bool-cases,
}
use containerlab.Base.Lists.{length, elem, Distinct}

-- A list without one occurrence of a text.
abbrev erase : String → List String → List String
erase x [] = []
erase x (y ∷ ys) = if str_eq x y then ys else y ∷ erase x ys

length-erase :
    (x : String) (ks : List String) → elem x ks ≡ true → length (erase x ks) + 1 ≡ length ks
length-erase x [] e = cc
length-erase x (y ∷ ks) e = elim (Bool-cases (str_eq x y)) [
  | inl same ↦ rw same (omega arith)
  | inr other ↦ rw other (omega (arith, length-erase x ks (ground arith)))
]

elem-erase :
    (x z : String) (ks : List String)
    → str_eq z x ≡ false
    → elem z ks ≡ true
    → elem z (erase x ks) ≡ true
elem-erase x z [] n e = e
elem-erase x z (y ∷ ks) n e =
    ground (arith, elem-erase x z ks n, eq_iff x y, eq_iff z y, eq_iff z x)

AllIn-erase :
    (x : String) (ks v : List String) → elem x v ≡ false → AllIn ks v → AllIn (erase x ks) v
AllIn-erase x ks [] n h = tt
AllIn-erase x ks (z ∷ v) n h = (
  elem-erase x z ks (ground (arith, eq_iff x z, eq_iff z x)) h.0,
  AllIn-erase x ks v (ground arith) h.1,
)

pub length-le_of_Distinct : (ks v : List String) → Distinct v → AllIn ks v → length v ≤ length ks
length-le_of_Distinct ks [] d h = omega arith
length-le_of_Distinct ks (x ∷ v) d h = omega (
  arith,
  length-erase x ks h.0,
  length-le_of_Distinct (erase x ks) v d.1 (AllIn-erase x ks v d.0 h.1),
)
