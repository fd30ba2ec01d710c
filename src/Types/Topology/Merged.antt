-- ===== src/Types/Topology/Merged.antt =====
-- Settings that are merged over the levels: string maps and string slices.
use containerlab.Utils.Env.{merge_string_maps}
use containerlab.Utils.Env.Maps.{AreMaps, last_value, lookup?, merge_string_maps_lem}
use containerlab.Utils.Env.Slices.{concat, all_nil, first_occurrences, merge_string_slices_lem}
use containerlab.Types.NodeDefinition.{NodeDefinition}
use containerlab.Types.Topology.{
  Topology, get_defaults, get_group, get_kind, get_node_group, get_node_kind, field_of, or_value,
  merge_string_map_fields, merge_string_slice_fields,
}
use containerlab.Types.Topology.Pointers.{first_some}
use containerlab.Base.{
  String, ◌≡◌, refl, ap, ◌∙◌, Option, none, some, List, [], ◌∷◌, arith, if◌then◌else◌, ok,
}
use containerlab.Base.GoMap.{GoMap, lookup}

-- With the less specific levels first, the last value is the first from the other end.
last_value_four :
    (x : String) (m₀ m₁ m₂ m₃ : Option (GoMap String))
    → last_value x (m₀ ∷ m₁ ∷ m₂ ∷ m₃ ∷ []) none
      ≡ first_some (lookup? x m₃ ∷ lookup? x m₂ ∷ lookup? x m₁ ∷ lookup? x m₀ ∷ [])
last_value_four x m₀ m₁ m₂ m₃ = ground arith

lookup-or_value : (x : String) (o : Option (GoMap String)) → lookup x (or_value o []) ≡ lookup? x o
unfolding lookup
lookup-or_value x none = refl
lookup-or_value x (some m) = refl

module _ (t : Topology) (n : String) (fn fg fk fd : NodeDefinition → Option (GoMap String)) where
  -- The maps of the levels, the least specific first.
  abbrev pub level_maps : Option NodeDefinition → String → String → List (Option (GoMap String))
  level_maps nd g k =
      fd (get_defaults t)
      ∷ field_of fk (get_kind t k)
      ∷ field_of fg (get_group t g)
      ∷ field_of fn nd
      ∷ []

  map_fields_at :
      (nd : Option NodeDefinition) {k g : String}
      → lookup n t.nodes ≡ some nd
      → get_node_kind t n ≡ ok k
      → get_node_group t n ≡ ok g
      → merge_string_map_fields t n fn fg fk fd
        ≡ ok (or_value (merge_string_maps (level_maps nd g k)) [])
  unfolding merge_string_map_fields
  map_fields_at nd e ek eg =
      rw (e, merge_string_map_fields)
        (rw (eg, merge_string_map_fields) (rw (ek, merge_string_map_fields)))

  -- Where the kind and the group of a node resolve, and the maps of its levels hold each key once, a
  -- merged map has for each key the value of the most specific level that holds it: node, then group,
  -- kind and defaults.
  pub merge_string_map_fields_lem :
      (nd : Option NodeDefinition) (k g x : String)
      → lookup n t.nodes ≡ some nd
      → get_node_kind t n ≡ ok k
      → get_node_group t n ≡ ok g
      → AreMaps (level_maps nd g k)
      → (m : GoMap String) × (merge_string_map_fields t n fn fg fk fd ≡ ok m)
        × (lookup x m
            ≡ first_some (
                lookup? x (field_of fn nd)
                ∷ lookup? x (field_of fg (get_group t g))
                ∷ lookup? x (field_of fk (get_kind t k))
                ∷ lookup? x (fd (get_defaults t))
                ∷ []))
  merge_string_map_fields_lem nd k g x e ek eg h = (
    or_value (merge_string_maps (level_maps nd g k)) [],
    map_fields_at nd e ek eg,
    lookup-or_value x (merge_string_maps (level_maps nd g k))
        ∙ (merge_string_maps_lem x (level_maps nd g k) h).1
        ∙ last_value_four x (fd (get_defaults t)) (field_of fk (get_kind t k))
            (field_of fg (get_group t g)) (field_of fn nd),
  )

module _ (t : Topology) (n : String) (fn fg fk fd : NodeDefinition → Option (List String)) where
  abbrev pub level_slices : Option NodeDefinition → String → String → List (Option (List String))
  level_slices nd g k =
      fd (get_defaults t)
      ∷ field_of fk (get_kind t k)
      ∷ field_of fg (get_group t g)
      ∷ field_of fn nd
      ∷ []

  -- Where the kind and the group of a node resolve, a merged slice has the values of the
  -- levels defaults, kind, group and node, in the order of their first occurrence, and is nil exactly
  -- where every level is nil.
  pub merge_string_slice_fields_lem :
      (nd : Option NodeDefinition) (k g : String)
      → lookup n t.nodes ≡ some nd
      → get_node_kind t n ≡ ok k
      → get_node_group t n ≡ ok g
      → merge_string_slice_fields t n fn fg fk fd
        ≡ ok (
            if all_nil (level_slices nd g k)
            then none
            else some (first_occurrences (concat (level_slices nd g k))))
  unfolding merge_string_slice_fields
  merge_string_slice_fields_lem nd k g e ek eg =
      rw (e, merge_string_slice_fields)
        (rw (eg, merge_string_slice_fields)
          (rw (ek, merge_string_slice_fields)
            (ap ok (merge_string_slices_lem (level_slices nd g k)))))
