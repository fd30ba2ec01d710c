-- ===== src/Core/Dependencies/Progress.antt =====
-- Acyclic dependencies never block all nodes.
use containerlab.Types.Stages.{get_wait_for_stages}
use containerlab.DependencyManager.Node.{DependencyNode, Manager, may_enter}
use containerlab.DependencyManager.Node.Views.{is_known, has_wg, known_node, is_ns}
use containerlab.DependencyManager.Node.History.{Dependency, Accounts, AreKnown, finished}
use containerlab.DependencyManager.Node.Signals.{all_finished, may_enter_lem}
use containerlab.DependencyManager.Check.{get_nodes}
use containerlab.Core.Dependencies.Recording.{IsRankedBy, is_known-get_nodes}
use native.Mathlib.Decide.{dec_le}
use containerlab.Base.{
  ℕ, ◌≤◌, String, ◌≡◌, refl, sym, ap, ◌∙◌, subst, ◌⊎◌, inl, inr, true, false, some, List, [], ◌∷◌,
  arith, str_eq, eq_iff, eq_refl, Bool-cases, ok,
}
use containerlab.Base.Lists.{elem}
use containerlab.Base.GoMap.{lookup, keys}

-- Every dependency waits for one of the five stages.
abbrev pub AtStages : List Dependency → Type 0
AtStages [] = Unit
AtStages (e ∷ deps) = (elem e.stage get_wait_for_stages ≡ true) × AtStages deps

elem-cases : (m x : String) (l : List String) → elem m (x ∷ l) ≡ true → (m ≡ x) ⊎ (elem m l ≡ true)
elem-cases m x l i = elim (Bool-cases (str_eq m x)) [
  | inl same ↦ inl ((eq_iff m x).0 same)
  | inr other ↦ inr (ground arith)
]

-- A name of the list that is not among those that are out, of the highest rank of these.
module _ (r : String → ℕ) (out : List String) where
  pub record Highest (l : List String) (n : String) : Type 0 where
    pub inside : elem n l ≡ true
    pub left : elem n out ≡ false
    pub above : (m : String) → elem m l ≡ true → elem m out ≡ false → r m ≤ r n

  Highest-first :
      (x : String) (l : List String)
      → elem x out ≡ false
      → ((m : String) → elem m l ≡ true → elem m out ≡ false → r m ≤ r x)
      → Highest (x ∷ l) x
  Highest-first x l o h = record {
    inside = ground (arith, eq_refl x);
    left = o;
    above = λ m i o'. elim (elem-cases m x l i) [
      | inl same ↦ subst (λ y. r y ≤ r x) (sym same) (omega arith)
      | inr later ↦ h m later o'
    ];
  }

  Highest-later :
      (x n : String) (l : List String)
      → (elem x out ≡ false → r x ≤ r n)
      → Highest l n
      → Highest (x ∷ l) n
  Highest-later x n l f h = record {
    inside = ground (arith, h.inside);
    left = h.left;
    above = λ m i o. elim (elem-cases m x l i) [
      | inl same ↦ subst (λ y. r y ≤ r n) (sym same) (f (ap (λ y. elem y out) (sym same) ∙ o))
      | inr later ↦ h.above m later o
    ];
  }

  pub highest :
      (l : List String)
      → ((m : String) → elem m l ≡ true → elem m out ≡ true) ⊎ ((n : String) × Highest l n)
  highest [] = inl (λ m i. cc)
  highest (x ∷ l) = elim (highest l) [
    | inl all ↦ elim (Bool-cases (elem x out)) [
      | inl o ↦ inl (λ m i. elim (elem-cases m x l i) [
        | inl same ↦ subst (λ y. elem y out ≡ true) (sym same) o
        | inr later ↦ all m later
      ])
      | inr o ↦ inr (x, Highest-first x l o (λ m i o'. absurd (cc (all m i, o'))))
    ]
    | inr (n, h) ↦ elim (Bool-cases (elem x out)) [
      | inl o ↦ inr (n, Highest-later x n l (λ o'. absurd (cc (o, o'))) h)
      | inr o ↦ elim (dec_le (r n) (r x)) [
        | yes below ↦ inr (x, Highest-first x l o (λ m i o'. omega (arith, h.above m i o', below)))
        | no higher ↦ inr (n, Highest-later x n l (λ o'. omega arith) h)
      ]
    ]
  ]

module _ (r : String → ℕ) (out : List String) (ds : List (String × String)) (dm : Manager)
    (n : String) where
  -- What a node waits for at any stage has finished, where all nodes above it have.
  all_finished_of_above :
      (deps : List Dependency)
      → IsRankedBy r deps
      → AtStages deps
      → AreKnown dm deps
      → ((m s : String)
          → elem m out ≡ true
          → elem s get_wait_for_stages ≡ true
          → finished m s ds ≡ true)
      → ((m : String) → is_known dm m ≡ true → elem m out ≡ false → r m ≤ r n)
      → (s : String) → all_finished n s deps ds ≡ true
  all_finished_of_above [] ranked at known f above s = refl
  all_finished_of_above (e ∷ deps) ranked (t, at) (k, w, known) f above s =
      let rest =
        all_finished_of_above deps (λ a b h. ranked a b (ground arith)) at known f above s in
      elim (Bool-cases (is_ns n s e.depender)) [
        | inr other ↦ ground (arith, other, rest)
        | inl mine ↦ elim (Bool-cases (elem e.dependee out)) [
          | inl gone ↦ ground (arith, f e.dependee e.stage gone t, rest)
          | inr stays ↦ absurd (
              omega (
                arith,
                above e.dependee k stays,
                ranked e.dependee n
                    (ground (arith, mine, eq_refl e.dependee, eq_iff n e.depender.depender)),
              ))
        ]
      ]

-- Where a manager accounts for dependencies that wait for proper stages and rank every depender below
-- its dependee, and not all nodes are through all their stages, some node that is not may enter each
-- of its stages.
pub progress :
    (deps : List Dependency) (ds : List (String × String)) (dm : Manager) (out : List String)
    (r : String → ℕ) (m : String)
    → Accounts deps ds dm
    → IsRankedBy r deps
    → AtStages deps
    → ((m s : String)
        → elem m out ≡ true
        → elem s get_wait_for_stages ≡ true
        → finished m s ds ≡ true)
    → is_known dm m ≡ true
    → elem m out ≡ false
    → (n : String) × (node : DependencyNode) × (lookup n dm ≡ some node)
      × (elem n out ≡ false)
      × ((s : String) → has_wg dm n s ≡ true → may_enter node s ≡ ok true)
progress deps ds dm out r m a ranked at f k o = elim (highest r out (keys (get_nodes dm))) [
  | inl all ↦ absurd (cc (all m (sym (is_known-get_nodes dm m) ∙ k), o))
  | inr (n, h) ↦
      let (node, l) = known_node dm n (is_known-get_nodes dm n ∙ h.inside) in
      (
        n,
        node,
        l,
        h.left,
        λ s g.
            may_enter_lem deps ds dm n s node a l g
            ∙ ap ok (
                all_finished_of_above r out ds dm n deps ranked at a.known f
                  (λ x k' o'. h.above x (sym (is_known-get_nodes dm x) ∙ k') o') s),
      )
]
