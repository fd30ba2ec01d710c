-- ===== src/Types/Topology/Resolution.antt =====
-- Which kind, group and field value a node resolves to, and where the resolution panics.
use containerlab.Base.{
  eq-ok_of_is_ok, String, ◌≡◌, refl, ap, ◌∙◌, inl, inr, Bool, Option, none, some, List, [], ◌∷◌,
  ◌++◌, if◌then◌else◌, Bool-cases, ok,
}
use containerlab.Types.NodeDefinition.{NodeDefinition}
use containerlab.Types.Topology.{
  Topology, get_defaults, get_group, get_kind, get_node_group, get_node_kind, get_field, level,
}
use containerlab.Base.GoMap.{lookup}
use containerlab.Types.Topology.Sound.{IsSound, is_ok-get_node_kind, is_ok-get_node_group}

-- The values that a field has at a level: none where there is no definition.
abbrev pub present {ℓ} : {T : Type ℓ} → (NodeDefinition → T) → Option NodeDefinition → List T
present field none = []
present field (some d) = field d ∷ []

-- The first value that is set, or else the default.
abbrev pub pick {ℓ} : {T : Type ℓ} → (T → Bool) → List T → T → T
pick is_set [] d = d
pick is_set (v ∷ vs) d = if is_set v then v else pick is_set vs d

level-pick {ℓ} :
    {T : Type ℓ} (o : Option NodeDefinition) (f : NodeDefinition → T) (is_set : T → Bool)
    (vs : List T) (d : T)
    → level o f is_set (ok (pick is_set vs d)) ≡ ok (pick is_set (present f o ++ vs) d)
level-pick none f is_set vs d = refl
level-pick (some nd) f is_set vs d = elim (Bool-cases (is_set (f nd))) [
  | inl e ↦ rw e
  | inr e ↦ rw e
]

module _ {ℓ} {T : Type ℓ} (t : Topology) (n : String) (fn fg fk fd : NodeDefinition → T)
    (is_set : T → Bool) where
  abbrev pub picked : Option NodeDefinition → String → String → T
  picked nd g k =
      pick is_set
        (present fn nd ++ (present fg (get_group t g) ++ (present fk (get_kind t k) ++ [])))
        (fd (get_defaults t))

  get_field_at :
      (nd : Option NodeDefinition) {k g : String}
      → lookup n t.nodes ≡ some nd
      → get_node_kind t n ≡ ok k
      → get_node_group t n ≡ ok g
      → get_field t n fn fg fk fd is_set ≡ ok (picked nd g k)
  unfolding get_field
  get_field_at nd {k} {g} e ek eg =
      rw (e, get_field)
        (rw (eg, get_field)
          (rw (ek, get_field)
            (ap (λ r. level nd fn is_set (level (get_group t g) fg is_set r))
                (level-pick (get_kind t k) fk is_set [] (fd (get_defaults t)))
              ∙ ap (level nd fn is_set)
                  (level-pick (get_group t g) fg is_set _ (fd (get_defaults t)))
              ∙ level-pick nd fn is_set _ (fd (get_defaults t)))))

  -- In a sound topology the node has a kind and a group, and a field of it has the first value that
  -- is set on the levels node, group and kind, in this order, or else the value of the defaults.
  pub get_field_precedence :
      (nd : Option NodeDefinition)
      → IsSound t
      → lookup n t.nodes ≡ some nd
      → (k : String) × (g : String) × (get_node_kind t n ≡ ok k)
        × (get_node_group t n ≡ ok g)
        × (get_field t n fn fg fk fd is_set ≡ ok (picked nd g k))
  get_field_precedence nd h e =
      let (k, ek) = eq-ok_of_is_ok (get_node_kind t n) (is_ok-get_node_kind t n h) in
      let (g, eg) = eq-ok_of_is_ok (get_node_group t n) (is_ok-get_node_group t n h) in
      (k, g, ek, eg, get_field_at nd e ek eg)
