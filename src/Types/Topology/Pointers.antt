-- ===== src/Types/Topology/Pointers.antt =====
-- Fields that are pointers: getFieldPtr.
use containerlab.Types.NodeDefinition.{NodeDefinition}
use containerlab.Types.Topology.{
  Topology, get_defaults, get_group, get_kind, get_node_group, get_node_kind, get_field_ptr,
  or_value, level_ptr,
}
use containerlab.Types.Topology.Sound.{IsSound, is_ok-get_node_kind, is_ok-get_node_group}
use containerlab.Base.{
  String, ◌≡◌, refl, ap, ◌∙◌, Option, none, some, List, [], ◌∷◌, if◌then◌else◌, is_some, ok, deref,
  eq-ok_of_is_ok,
}
use containerlab.Base.GoMap.{lookup}

-- The first pointer that is not nil.
abbrev pub first_some {ℓ} : {T : Type ℓ} → List (Option T) → Option T
first_some [] = none
first_some (none ∷ os) = first_some os
first_some (some v ∷ os) = some v

abbrev pub ptr_of {ℓ} :
    {T : Type ℓ} → (NodeDefinition → Option T) → Option NodeDefinition → Option T
ptr_of f none = none
ptr_of f (some d) = f d

level_ptr-first_some {ℓ} :
    {T : Type ℓ} (o : Option NodeDefinition) (f : NodeDefinition → Option T) (os : List (Option T))
    (d : T)
    → level_ptr o f is_some (ok (or_value (first_some os) d))
      ≡ ok (or_value (first_some (ptr_of f o ∷ os)) d)
level_ptr-first_some none f os d = refl
level_ptr-first_some {T = T} (some nd) f os d = cases (f nd)
  where
    cases :
        (p : Option T)
        → (if is_some p then deref p else ok (or_value (first_some os) d))
          ≡ ok (or_value (first_some (p ∷ os)) d)
    cases none = refl
    cases (some v) = refl

module _ {ℓ} {T : Type ℓ} (t : Topology) (n : String) (fn fg fk fd : NodeDefinition → Option T)
    (last : T) where
  abbrev pub picked_ptr : NodeDefinition → String → String → T
  picked_ptr d g k =
      or_value
        (first_some
          (fn d ∷ ptr_of fg (get_group t g) ∷ ptr_of fk (get_kind t k) ∷ fd (get_defaults t) ∷ []))
        last

  or_value-first_some :
      or_value (fd (get_defaults t)) last ≡ or_value (first_some (fd (get_defaults t) ∷ [])) last
  or_value-first_some = cases (fd (get_defaults t))
    where
      cases : (p : Option T) → or_value p last ≡ or_value (first_some (p ∷ [])) last
      cases none = refl
      cases (some v) = refl

  get_field_ptr_at :
      (d : NodeDefinition) {k g : String}
      → lookup n t.nodes ≡ some (some d)
      → get_node_kind t n ≡ ok k
      → get_node_group t n ≡ ok g
      → get_field_ptr t n fn fg fk fd is_some last ≡ ok (picked_ptr d g k)
  unfolding get_field_ptr
  get_field_ptr_at d {k} {g} e ek eg =
      rw (e, get_field_ptr)
        (rw (eg, get_field_ptr)
          (rw (ek, get_field_ptr)
            (ap
                (λ r. level_ptr (some d) fn is_some (
                  level_ptr (get_group t g) fg is_some
                    (level_ptr (get_kind t k) fk is_some (ok r))))
                or_value-first_some
              ∙ ap (λ r. level_ptr (some d) fn is_some (level_ptr (get_group t g) fg is_some r))
                  (level_ptr-first_some (get_kind t k) fk _ last)
              ∙ ap (level_ptr (some d) fn is_some) (level_ptr-first_some (get_group t g) fg _ last)
              ∙ level_ptr-first_some (some d) fn _ last)))

  -- In a sound topology a pointer field of a defined node is the first that is not nil on the levels
  -- node, group, kind and defaults, or else the last resort.
  pub get_field_ptr_precedence :
      (d : NodeDefinition)
      → IsSound t
      → lookup n t.nodes ≡ some (some d)
      → (k : String) × (g : String) × (get_node_kind t n ≡ ok k)
        × (get_node_group t n ≡ ok g)
        × (get_field_ptr t n fn fg fk fd is_some last ≡ ok (picked_ptr d g k))
  get_field_ptr_precedence d h e =
      let (k, ek) = eq-ok_of_is_ok (get_node_kind t n) (is_ok-get_node_kind t n h) in
      let (g, eg) = eq-ok_of_is_ok (get_node_group t n) (is_ok-get_node_group t n h) in
      (k, g, ek, eg, get_field_ptr_at d e ek eg)

  -- A node whose definition is nil takes a pointer field from the defaults or the last resort,
  -- whatever its group and its kind set.
  pub get_field_ptr_nil_node :
      lookup n t.nodes ≡ some none
      → get_field_ptr t n fn fg fk fd is_some last ≡ ok (or_value (fd (get_defaults t)) last)
  unfolding get_field_ptr
  get_field_ptr_nil_node e = rw (e, get_field_ptr)
