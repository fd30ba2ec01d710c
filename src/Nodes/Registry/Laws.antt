-- ===== src/Nodes/Registry/Laws.antt =====
-- What a registration does to the registry.
use containerlab.Nodes.Registry.{
  NodeRegistryEntryAttributes, NodeRegistryEntry, NodeRegistry, add_names, add_entry, register,
  new_node_of_kind,
}
use containerlab.Base.{
  String, ◌≡◌, refl, ap, ◌∙◌, subst, inl, inr, Bool, true, false, not, ◌||◌, Option, none, some,
  List, [], ◌∷◌, arith, str_eq, eq_iff, Bool-cases, is_some, ok, is_ok,
}
use containerlab.Base.Lists.{elem}
use containerlab.Base.GoMap.{lookup, insert, lookup-insert}

module _ {N : Type 0} where
  -- Is one of the names registered, or does one stand twice in the list?
  abbrev pub any_registered : NodeRegistry N → List String → Bool
  any_registered r [] = false
  any_registered r (name ∷ names) =
      (is_some (lookup name r) || elem name names) || any_registered r names

  any_registered-insert :
      (r : NodeRegistry N) (name : String) (entry : NodeRegistryEntry N) (names : List String)
      → any_registered (insert name entry r) names ≡ (elem name names || any_registered r names)
  any_registered-insert r name entry [] = refl
  any_registered-insert r name entry (other ∷ names) = ground (
    arith,
    any_registered-insert r name entry names,
    lookup-insert name other entry r,
    eq_iff name other,
    eq_iff other name,
  )

  -- Register succeeds if and only if none of the names is registered and none stands twice in the
  -- list.
  add_names-is_ok :
      (r : NodeRegistry N) (entry : NodeRegistryEntry N) (names : List String)
      → is_ok (add_names r entry names).0 ≡ not (any_registered r names)
  unfolding add_names
  add_names-is_ok r entry [] = refl
  add_names-is_ok r entry (name ∷ names) =
      looked_up (lookup name r) refl (add_names-is_ok (insert name entry r) entry names)
    where
      looked_up :
          (o : Option (NodeRegistryEntry N))
          → lookup name r ≡ o
          → is_ok (add_names (insert name entry r) entry names).0
            ≡ not (any_registered (insert name entry r) names)
          → is_ok (add_names r entry (name ∷ names)).0 ≡ not (any_registered r (name ∷ names))
      looked_up none o rest =
          rw (o, add_names) (rest ∙ ap not (any_registered-insert r name entry names))
      looked_up (some held) o rest = rw (o, add_names) refl

  kept_names :
      (r : NodeRegistry N) (entry held : NodeRegistryEntry N) (names : List String) (kind : String)
      → lookup kind r ≡ some held
      → lookup kind (add_names r entry names).1 ≡ some held
  unfolding add_names
  kept_names r entry held [] kind h = h
  kept_names r entry held (name ∷ names) kind h =
      looked_up (lookup name r) refl λ i. kept_names (insert name entry r) entry held names kind i
    where
      looked_up :
          (o : Option (NodeRegistryEntry N))
          → lookup name r ≡ o
          → (lookup kind (insert name entry r) ≡ some held
              → lookup kind (add_names (insert name entry r) entry names).1 ≡ some held)
          → lookup kind (add_names r entry (name ∷ names)).1 ≡ some held
      looked_up (some other) o rest = rw (o, add_names) h
      looked_up none o rest =
          rw (o, add_names)
            (rest (elim (Bool-cases (str_eq name kind)) [
              | inl same ↦
                  let eq : name ≡ kind = (eq_iff name kind).0 same in
                  absurd (ground (arith, h, subst (λ k. lookup k r ≡ none) eq o))
              | inr apart ↦ ground (arith, lookup-insert name kind entry r, apart, h)
            ]))

  added_names :
      (r : NodeRegistry N) (entry : NodeRegistryEntry N) (names : List String) (kind : String)
      → is_ok (add_names r entry names).0 ≡ true
      → elem kind names ≡ true
      → lookup kind (add_names r entry names).1 ≡ some entry
  unfolding add_names
  added_names r entry [] kind h e = cc
  added_names r entry (name ∷ names) kind h e =
      looked_up (lookup name r) refl (λ i j. added_names (insert name entry r) entry names kind i j)
        h
    where
      looked_up :
          (o : Option (NodeRegistryEntry N))
          → lookup name r ≡ o
          → (is_ok (add_names (insert name entry r) entry names).0 ≡ true
              → elem kind names ≡ true
              → lookup kind (add_names (insert name entry r) entry names).1 ≡ some entry)
          → is_ok (add_names r entry (name ∷ names)).0 ≡ true
          → lookup kind (add_names r entry (name ∷ names)).1 ≡ some entry
      looked_up (some held) o rest = rw (o, add_names) λ w. absurd (ground (arith, w))
      looked_up none o rest =
          rw (o, add_names)
            λ w. elim (Bool-cases (str_eq name kind)) [
              | inl same ↦
                  kept_names (insert name entry r) entry entry names kind
                    (ground (arith, lookup-insert name kind entry r, same))
              | inr apart ↦ rest w (ground (arith, e, apart, eq_iff name kind, eq_iff kind name))
            ]

  -- Register, on every outcome, leaves the kinds that are registered as they are. It succeeds if and
  -- only if none of the names is registered and none stands twice in the list, and then each of the
  -- names makes nodes by the given initializer.
  pub register_lem :
      (r : NodeRegistry N) (names : List String) (initf : N)
      (attributes : Option NodeRegistryEntryAttributes)
      → ((kind : String) (held : NodeRegistryEntry N)
          → lookup kind r ≡ some held
          → lookup kind (register r names initf attributes).1 ≡ some held)
        × (is_ok (register r names initf attributes).0 ≡ not (any_registered r names))
        × ((kind : String)
            → is_ok (register r names initf attributes).0 ≡ true
            → elem kind names ≡ true
            → new_node_of_kind (register r names initf attributes).1 kind ≡ ok initf)
  unfolding register add_entry new_node_of_kind
  register_lem r names initf attributes = (
    λ kind held h. kept_names r _ held names kind h,
    add_names-is_ok r _ names,
    λ kind went listed. rw (added_names r _ names kind went listed, new_node_of_kind) refl,
  )
