-- ===== src/Utils/Env/Slices.antt =====
-- MergeStringSlices: the values in the order of their first occurrence, each once.
use containerlab.Base.{
  String, ◌≡◌, refl, sym, ap, ◌∙◌, inl, inr, Bool, true, false, not, ◌&&◌, Option, none, some, List,
  [], ◌∷◌, ◌++◌, arith, str_eq, eq_iff, eq_refl, if◌then◌else◌, Bool-cases,
}
use containerlab.Base.Lists.{elem, Distinct}
use mathlib.Core.List.{append-nil, append_assoc}
use containerlab.Utils.Env.{concat_loop, uniques_loop, merge_string_slices}

abbrev pub remove : String → List String → List String
remove x [] = []
remove x (y ∷ ys) = if str_eq x y then remove x ys else y ∷ remove x ys

-- The values of a list in the order of their first occurrence.
abbrev pub first_occurrences : List String → List String
first_occurrences [] = []
first_occurrences (x ∷ xs) = x ∷ remove x (first_occurrences xs)

abbrev pub concat : List (Option (List String)) → List String
concat [] = []
concat (none ∷ ss) = concat ss
concat (some s ∷ ss) = s ++ concat ss

abbrev pub all_nil : List (Option (List String)) → Bool
all_nil [] = true
all_nil (none ∷ ss) = all_nil ss
all_nil (some s ∷ ss) = false

abbrev minus : List String → List String → List String
minus [] m = []
minus (y ∷ ys) m = if elem y m then minus ys m else y ∷ minus ys m

minus-nil : (l : List String) → minus l [] ≡ l
minus-nil [] = refl
minus-nil (x ∷ l) = ap (λ t. x ∷ t) (minus-nil l)

minus-cons : (x : String) (l m : List String) → minus l (x ∷ m) ≡ minus (remove x l) m
minus-cons x [] m = refl
minus-cons x (y ∷ l) m = ground (arith, minus-cons x l m, eq_iff x y, eq_iff y x)

minus-remove : (x : String) (l m : List String) → elem x m ≡ true → minus (remove x l) m ≡ minus l m
minus-remove x [] m h = refl
minus-remove x (y ∷ l) m h = ground (arith, minus-remove x l m h, eq_iff x y)

append_middle : (xs ys : List String) (x : String) → (xs ++ x ∷ []) ++ ys ≡ xs ++ x ∷ ys
append_middle [] ys x = refl
append_middle (z ∷ xs) ys x = ap (λ l. z ∷ l) (append_middle xs ys x)

uniques_loop-eq :
    (res m uniques : List String)
    → uniques_loop res m uniques ≡ uniques ++ minus (first_occurrences res) m
unfolding uniques_loop
uniques_loop-eq [] m uniques = sym (append-nil uniques)
uniques_loop-eq (x ∷ res) m uniques = elim (Bool-cases (elem x m)) [
  | inl old ↦ rw old (
      uniques_loop-eq res m uniques
      ∙ ap (λ l. uniques ++ l) (sym (minus-remove x (first_occurrences res) m old)))
  | inr new ↦ rw new (
      uniques_loop-eq res (x ∷ m) (uniques ++ x ∷ [])
      ∙ ap (λ l. (uniques ++ x ∷ []) ++ l) (minus-cons x (first_occurrences res) m)
      ∙ append_middle uniques (minus (remove x (first_occurrences res)) m) x)
]

concat_loop-eq :
    (ss : List (Option (List String))) (res : List String) (b : Bool)
    → concat_loop ss res b ≡ (res ++ concat ss, b && all_nil ss)
unfolding concat_loop
concat_loop-eq [] res b = ground (arith, append-nil res)
concat_loop-eq (none ∷ ss) res b = concat_loop-eq ss res b
concat_loop-eq (some s ∷ ss) res b =
    concat_loop-eq ss (res ++ s) false ∙ ground (arith, append_assoc res s (concat ss))

-- Merging string slices gives nil exactly where every slice is nil, and otherwise the values of the
-- slices in the order of their first occurrence.
pub merge_string_slices_lem :
    (ss : List (Option (List String)))
    → merge_string_slices ss ≡ (if all_nil ss then none else some (first_occurrences (concat ss)))
unfolding merge_string_slices
merge_string_slices_lem ss =
    rw (concat_loop-eq ss [] true, merge_string_slices)
      (rw (uniques_loop-eq (concat ss) [] [], minus-nil (first_occurrences (concat ss))))

elem-remove :
    (x y : String) (l : List String) → elem x (remove y l) ≡ (not (str_eq x y) && elem x l)
elem-remove x y [] = ground arith
elem-remove x y (z ∷ l) = ground (arith, elem-remove x y l, eq_iff y z, eq_iff x z, eq_iff x y)

elem-first_occurrences : (x : String) (l : List String) → elem x (first_occurrences l) ≡ elem x l
elem-first_occurrences x [] = refl
elem-first_occurrences x (y ∷ l) =
    ground (arith, elem-first_occurrences x l, elem-remove x y (first_occurrences l), eq_iff x y)

Distinct-remove : (x : String) (l : List String) → Distinct l → Distinct (remove x l)
Distinct-remove x [] h = tt
Distinct-remove x (y ∷ l) h = elim (Bool-cases (str_eq x y)) [
  | inl e ↦ rw e (Distinct-remove x l h.1)
  | inr e ↦ rw e (ground (arith, elem-remove y x l, h.0), Distinct-remove x l h.1)
]

Distinct-first_occurrences : (l : List String) → Distinct (first_occurrences l)
Distinct-first_occurrences [] = tt
Distinct-first_occurrences (x ∷ l) = (
  ground (arith, elem-remove x x (first_occurrences l), eq_refl x),
  Distinct-remove x (first_occurrences l) (Distinct-first_occurrences l),
)

-- A merged slice holds each value once, and holds exactly the values of the given slices.
pub merge_string_slices-Distinct :
    (x : String) (ss : List (Option (List String))) (l : List String)
    → merge_string_slices ss ≡ some l
    → Distinct l × (elem x l ≡ elem x (concat ss))
merge_string_slices-Distinct x ss l h =
    let e : first_occurrences (concat ss) ≡ l = ground (arith, merge_string_slices_lem ss) in
    rw (← e) (Distinct-first_occurrences (concat ss), elem-first_occurrences x (concat ss))
