-- ===== src/Links/Ownership/Invariant.antt =====
-- When the objects agree on who owns an endpoint: an endpoint in the list of a node names that node
-- as its own, and a node has no two endpoints with one interface name.
use containerlab.Links.Ownership.{tracks, has, remove_first, clashes}
use containerlab.Links.Store.{Endpoint, Store}
use containerlab.Base.{
  ℕ, ◌<◌, String, ◌≡◌, refl, sym, ap, subst, ◌⊎◌, inl, inr, Bool, true, false, ◌||◌, Option, none,
  some, List, [], ◌∷◌, ◌++◌, arith, str_eq, eq_iff, eq_refl, ◌==◌, Bool-cases, ok,
}

-- Does an endpoint of the list have this interface name?
abbrev pub named : (ℕ → Endpoint) → String → List ℕ → Bool
named endpoint name [] = false
named endpoint name (e ∷ es) = str_eq (endpoint e).iface_name name || named endpoint name es

abbrev pub Apart : (ℕ → Endpoint) → List ℕ → Type 0
Apart endpoint [] = Unit {0}
Apart endpoint (e ∷ es) = (named endpoint (endpoint e).iface_name es ≡ false) × Apart endpoint es

pub record Owned {S : Type 0} (s : Store S) : Type 0 where
  pub owner : (n e : ℕ) → has e (s.owned n) ≡ true → (s.endpoint e).node ≡ some n
  pub apart : (n : ℕ) → Apart s.endpoint (s.owned n)
  pub allocated : (n e : ℕ) → has e (s.owned n) ≡ true → e < s.next_endpoint

pub has-named :
    (endpoint : ℕ → Endpoint) (e : ℕ) (es : List ℕ)
    → has e es ≡ true
    → named endpoint (endpoint e).iface_name es ≡ true
has-named endpoint e [] h = h
has-named endpoint e (o ∷ os) h = elim (Bool-cases (e == o)) [
  | inl same ↦
      let eq : e ≡ o = ground (arith, same) in rw (eq, eq_refl (endpoint o).iface_name) refl
  | inr other ↦ ground (arith, has-named endpoint e os (ground (arith, h, other)))
]

pub has-append : (e : ℕ) (es os : List ℕ) → has e (es ++ os) ≡ (has e es || has e os)
has-append e [] os = refl
has-append e (o ∷ es) os = ground (arith, has-append e es os)

pub named-append :
    (endpoint : ℕ → Endpoint) (name : String) (es os : List ℕ)
    → named endpoint name (es ++ os) ≡ (named endpoint name es || named endpoint name os)
named-append endpoint name [] os = refl
named-append endpoint name (e ∷ es) os = ground (arith, named-append endpoint name es os)

-- The first element is the one removed, or the rest loses one.
remove_first_cases :
    (e o : ℕ) (es left : List ℕ)
    → remove_first e (o ∷ es) ≡ some left
    → ((o ≡ e) × (es ≡ left))
      ⊎ ((rest : List ℕ) × (remove_first e es ≡ some rest) × (left ≡ o ∷ rest))
unfolding remove_first
remove_first_cases e o es left h = split (remove_first e es) refl
  where
    split :
        (rest : Option (List ℕ))
        → remove_first e es ≡ rest
        → ((o ≡ e) × (es ≡ left))
          ⊎ ((rest : List ℕ) × (remove_first e es ≡ some rest) × (left ≡ o ∷ rest))
    split none gone = elim (Bool-cases (o == e)) [
      | inl same ↦ inl (ground (arith, same), ground (arith, h, same))
      | inr other ↦ absurd (ground (arith, h, other, gone))
    ]
    split (some rest) gone = elim (Bool-cases (o == e)) [
      | inl same ↦ inl (ground (arith, same), ground (arith, h, same))
      | inr other ↦ inr (rest, gone, ground (arith, h, other, gone))
    ]

-- What is left without the first occurrence was there before.
pub has-remove_first :
    (e x : ℕ) (es left : List ℕ)
    → remove_first e es ≡ some left
    → has x es ≡ ((x == e) || has x left)
unfolding remove_first
has-remove_first e x [] left h = cc
has-remove_first e x (o ∷ es) left h = elim (remove_first_cases e o es left h) [
  | inl (same, rest) ↦ rw (same, rest) refl
  | inr (rest, gone, shape) ↦ rw shape (ground (arith, has-remove_first e x es rest gone))
]

pub named-remove_first :
    (endpoint : ℕ → Endpoint) (e : ℕ) (name : String) (es left : List ℕ)
    → remove_first e es ≡ some left
    → named endpoint name es ≡ (str_eq (endpoint e).iface_name name || named endpoint name left)
unfolding remove_first
named-remove_first endpoint e name [] left h = cc
named-remove_first endpoint e name (o ∷ es) left h = elim (remove_first_cases e o es left h) [
  | inl (same, rest) ↦ rw (same, rest) refl
  | inr (rest, gone, shape) ↦
      rw shape (ground (arith, named-remove_first endpoint e name es rest gone))
]

pub Apart-remove_first :
    (endpoint : ℕ → Endpoint) (e : ℕ) (es left : List ℕ)
    → Apart endpoint es
    → remove_first e es ≡ some left
    → Apart endpoint left × (named endpoint (endpoint e).iface_name left ≡ false)
unfolding remove_first
Apart-remove_first endpoint e [] left a h = cc
Apart-remove_first endpoint e (o ∷ es) left (new, a) h = elim (remove_first_cases e o es left h) [
  | inl (same, rest) ↦ (subst (Apart endpoint) rest a, rw (← same, ← rest) new)
  | inr (rest, gone, shape) ↦
      let (a', free) = Apart-remove_first endpoint e es rest a gone in
      let split = named-remove_first endpoint e (endpoint o).iface_name es rest gone in
      (
        subst (Apart endpoint) (sym shape) (ground (arith, split, new), a'),
        rw shape (
            ground (
              arith,
              free,
              split,
              new,
              eq_iff (endpoint o).iface_name (endpoint e).iface_name,
              eq_iff (endpoint e).iface_name (endpoint o).iface_name,
            )),
      )
]

pub remove_first-some :
    (e : ℕ) (es : List ℕ) → has e es ≡ true → (left : List ℕ) × (remove_first e es ≡ some left)
unfolding remove_first
remove_first-some e [] h = cc
remove_first-some e (o ∷ es) h = elim (Bool-cases (o == e)) [
  | inl same ↦ (es, ground (arith, same))
  | inr other ↦
      let (left, gone) = remove_first-some e es (ground (arith, h, other)) in
      (o ∷ left, ground (arith, other, gone))
]

pub clashes-eq-ok :
    (endpoint : ℕ → Endpoint) (e : ℕ) (es : List ℕ)
    → clashes endpoint e es ≡ ok tt
    → named endpoint (endpoint e).iface_name es ≡ false
unfolding clashes
clashes-eq-ok endpoint e [] h = refl
clashes-eq-ok endpoint e (o ∷ es) h = ground (arith, clashes-eq-ok endpoint e es)

pub tracks-free :
    (endpoint : ℕ → Endpoint) (e : ℕ) (es : List ℕ)
    → named endpoint (endpoint e).iface_name es ≡ false
    → tracks endpoint e es ≡ ok false
unfolding tracks
tracks-free endpoint e [] h = refl
tracks-free endpoint e (o ∷ es) h = elim (Bool-cases (o == e)) [
  | inl same ↦
      let eq : o ≡ e = ground (arith, same) in
      absurd
        (ground (arith, h, eq_refl (endpoint e).iface_name, ap (λ k. (endpoint k).iface_name) eq))
  | inr other ↦ ground (arith, other, h, tracks-free endpoint e es)
]

pub Apart-append :
    (endpoint : ℕ → Endpoint) (e : ℕ) (es : List ℕ)
    → Apart endpoint es
    → named endpoint (endpoint e).iface_name es ≡ false
    → Apart endpoint (es ++ (e ∷ []))
Apart-append endpoint e [] a h = (refl, tt)
Apart-append endpoint e (o ∷ es) (new, a) h = (
  rw (named-append endpoint (endpoint o).iface_name es (e ∷ [])) (
      ground (
        arith,
        new,
        h,
        eq_iff (endpoint o).iface_name (endpoint e).iface_name,
        eq_iff (endpoint e).iface_name (endpoint o).iface_name,
      )),
  Apart-append endpoint e es a (ground (arith, h)),
)

-- Two views of the endpoints with the same interface names.
pub named-same :
    (one other : ℕ → Endpoint) (name : String) (es : List ℕ)
    → ((e : ℕ) → has e es ≡ true → (one e).iface_name ≡ (other e).iface_name)
    → named one name es ≡ named other name es
named-same one other name [] h = refl
named-same one other name (e ∷ es) h =
    rw (h e (ground arith), named-same one other name es λ k held. h k (ground (arith, held))) refl

pub Apart-same :
    (one other : ℕ → Endpoint) (es : List ℕ)
    → ((e : ℕ) → has e es ≡ true → (one e).iface_name ≡ (other e).iface_name)
    → Apart one es
    → Apart other es
Apart-same one other [] h a = tt
Apart-same one other (e ∷ es) h (new, a) = (
  rw
      (
        ← h e (ground arith),
        ← named-same one other (one e).iface_name es λ k held. h k (ground (arith, held)),
      )
      new,
  Apart-same one other es (λ k held. h k (ground (arith, held))) a,
)
