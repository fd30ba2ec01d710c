-- ===== src/Nodes/Interfaces/Uniqueness.antt =====
-- What CheckEndpointUniqueness accepts.
use containerlab.Base.{
  ℕ, ◌≡◌, refl, sym, ap, ◌∙◌, subst, ◌↔◌, inl, inr, true, false, Option, none, some, List, [], ◌∷◌,
  arith, str_eq, eq_iff, ◌==◌, Bool-cases, ok, is_ok,
}
use containerlab.Nodes.Interfaces.{
  has_same_node_and_interface, uniqueness_loop, check_endpoint_uniqueness,
}
use containerlab.Links.Store.{Store}
use containerlab.Links.Ownership.{has}

module _ {S : Type 0} where
  -- Every endpoint of the list but `e` itself differs from `e`.
  abbrev pub Differs : Store S → ℕ → List ℕ → Type 0
  Differs s e es =
      (o : ℕ)
      → has o es ≡ true
      → (e == o) ≡ false
      → has_same_node_and_interface s.endpoint e o ≡ false

  accepted :
      (s : Store S) (e : ℕ) (es : List ℕ) → uniqueness_loop s.endpoint e es ≡ ok tt → Differs s e es
  unfolding uniqueness_loop
  accepted s e [] h o held apart = ground (arith, held)
  accepted s e (x ∷ es) h o held apart = elim (Bool-cases (e == x)) [
    | inl same ↦
        let later : has o es ≡ true = ground (arith, held, apart, same) in
        accepted s e es (rw same at h) o later apart
    | inr other ↦ elim (Bool-cases (has_same_node_and_interface s.endpoint e x)) [
      | inl twice ↦ absurd (ground (arith, ap is_ok (rw (other, twice) at h)))
      | inr differs ↦ elim (Bool-cases (o == x)) [
        | inl here ↦
            let eq : x ≡ o = ground (arith, here) in
            subst (λ k. has_same_node_and_interface s.endpoint e k ≡ false) eq differs
        | inr away ↦ accepted s e es (rw (other, differs) at h) o (ground (arith, held, away)) apart
      ]
    ]
  ]

  differing :
      (s : Store S) (e : ℕ) (es : List ℕ) → Differs s e es → uniqueness_loop s.endpoint e es ≡ ok tt
  unfolding uniqueness_loop
  differing s e [] d = refl
  differing s e (x ∷ es) d =
      let rest = differing s e es λ o held apart. d o (ground (arith, held)) apart in
      elim (Bool-cases (e == x)) [
        | inl same ↦ rw same rest
        | inr other ↦ rw (other, d x (ground arith) other) rest
      ]

  -- Two endpoints have the same node and interface if and only if both names are equal.
  same_lem :
      (s : Store S) (n e o : ℕ)
      → (s.endpoint e).node ≡ some n
      → (has_same_node_and_interface s.endpoint e o ≡ true)
        ↔ (((s.endpoint o).node ≡ some n) × ((s.endpoint e).iface_name ≡ (s.endpoint o).iface_name))
  unfolding has_same_node_and_interface
  same_lem s n e o at = by_node (s.endpoint o).node refl
    where
      names :
          (str_eq (s.endpoint e).iface_name (s.endpoint o).iface_name ≡ true)
          ↔ ((s.endpoint e).iface_name ≡ (s.endpoint o).iface_name)
      names = eq_iff (s.endpoint e).iface_name (s.endpoint o).iface_name

      by_node :
          (m : Option ℕ)
          → (s.endpoint o).node ≡ m
          → (has_same_node_and_interface s.endpoint e o ≡ true) ↔ (
              ((s.endpoint o).node ≡ some n)
              × ((s.endpoint e).iface_name ≡ (s.endpoint o).iface_name))
      by_node none there = (
        λ h. absurd (ground (arith, rw (at, there, has_same_node_and_interface) at h)),
        λ both. absurd (ground (arith, both.0, there)),
      )
      by_node (some m) there = (
        λ h.
            let h' = rw (at, there, has_same_node_and_interface) at h in
            (there ∙ ap some (ground (arith, h')), names.0 (ground (arith, h'))),
        λ both.
            let here : some n ≡ some m = sym both.0 ∙ there in
            rw (at, there, has_same_node_and_interface) (ground (arith, here, names.1 both.1)),
      )

  -- CheckEndpointUniqueness accepts an endpoint of a node if and only if no other endpoint in the list
  -- of this node names the same node and has the same interface name.
  pub check_endpoint_uniqueness_lem :
      (s : Store S) (n e : ℕ)
      → (s.endpoint e).node ≡ some n
      → (check_endpoint_uniqueness s e ≡ ok tt) ↔ (
          (o : ℕ)
          → has o (s.owned n) ≡ true
          → (s.endpoint o).node ≡ some n
          → (s.endpoint e).iface_name ≡ (s.endpoint o).iface_name
          → o ≡ e)
  unfolding check_endpoint_uniqueness
  check_endpoint_uniqueness_lem s n e at = (
    λ h o held node name. elim (Bool-cases (e == o)) [
      | inl same ↦ ground (arith, same)
      | inr apart ↦
          let differs =
            accepted s e (s.owned n) (rw (at, check_endpoint_uniqueness) at h) o held apart in
          absurd (ground (arith, differs, (same_lem s n e o at).1 (node, name)))
    ],
    λ only.
        rw (at, check_endpoint_uniqueness)
          (differing s e (s.owned n) λ o held apart.
            elim (Bool-cases (has_same_node_and_interface s.endpoint e o)) [
              | inr differs ↦ differs
              | inl twice ↦
                  let (node, name) = (same_lem s n e o at).0 twice in
                  absurd (ground (arith, only o held node name, apart))
            ]),
  )
