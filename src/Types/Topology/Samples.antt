-- ===== src/Types/Topology/Samples.antt =====
-- Small topologies, and the theorems about the resolution at them.
use containerlab.Utils.Env.{merge_string_maps, merge_string_slices}
use containerlab.Types.NodeDefinition.{NodeDefinition, new_node_definition}
use containerlab.Types.Bind.{Bind, new_bind_from_string, bind_string}
use containerlab.Types.Bind.RoundTrip.{new_bind_from_string-bind_string}
use containerlab.Types.Topology.{
  Topology, new_topology, get_defaults, get_group, get_kind, get_node_group, get_node_kind,
  get_field, get_field_ptr, is_set_text, merge_string_map_fields, merge_string_slice_fields,
}
use containerlab.Types.Topology.Sound.{IsSound}
use containerlab.Types.Topology.Resolution.{get_field_precedence, picked}
use containerlab.Types.Topology.Pointers.{get_field_ptr_precedence, picked_ptr}
use containerlab.Base.{
  String, ◌≡◌, refl, inl, true, false, none, some, [], ◌∷◌, arith, eq_iff, is_some, ok,
}
use containerlab.Base.GoMap.{lookup, insert}

abbrev router : NodeDefinition
router = record new_node_definition {
  image = "srl:1";
  auto_remove = some true;
  env = some (("A", "kind") ∷ ("B", "kind") ∷ []);
  exec = some ("x" ∷ "y" ∷ []);
}

abbrev leaf : NodeDefinition
leaf = record new_node_definition { kind = "srl"; user = "admin"; env = some (("B", "group") ∷ []) }

abbrev member : NodeDefinition
member = record new_node_definition { group = "leaves"; exec = some ("z" ∷ "x" ∷ []) }

abbrev lab : Topology
lab = record new_topology {
  kinds = some (("srl", some router) ∷ []);
  nodes = ("n1", some member) ∷ ("n2", none) ∷ [];
  groups = some (("leaves", some leaf) ∷ []);
}

program : Unit {0}
unfolding get_node_kind get_node_group get_field get_field_ptr get_kind get_group get_defaults
    lookup insert merge_string_map_fields merge_string_slice_fields merge_string_maps
    merge_string_slices new_bind_from_string bind_string
program = tt

lab-IsSound : IsSound lab
unfolding program
lab-IsSound = record { has_defaults = refl; has_kind = λ k. ground arith }

get_field_precedence_example :
    (k : String) × (g : String) × (get_node_kind lab "n1" ≡ ok k)
    × (get_node_group lab "n1" ≡ ok g)
    × (get_field lab "n1" (λ d. d.image) (λ d. d.image) (λ d. d.image) (λ d. d.image) is_set_text
        ≡ ok (
            picked lab "n1"
              (λ d. d.image)
              (λ d. d.image)
              (λ d. d.image)
              (λ d. d.image)
              is_set_text
              (some member)
              g
              k))
get_field_precedence_example =
    get_field_precedence lab "n1" (λ d. d.image) (λ d. d.image) (λ d. d.image) (λ d. d.image)
      is_set_text (some member) lab-IsSound (unfold lookup in refl)

image_of_n1 :
    get_field lab "n1" (λ d. d.image) (λ d. d.image) (λ d. d.image) (λ d. d.image) is_set_text
    ≡ ok "srl:1"
unfolding program
image_of_n1 = refl

get_field_ptr_precedence_example :
    (k : String) × (g : String) × (get_node_kind lab "n1" ≡ ok k)
    × (get_node_group lab "n1" ≡ ok g)
    × (get_field_ptr lab "n1"
          (λ d. d.auto_remove)
          (λ d. d.auto_remove)
          (λ d. d.auto_remove)
          (λ d. d.auto_remove)
          is_some
          false
        ≡ ok (
            picked_ptr lab "n1"
              (λ d. d.auto_remove)
              (λ d. d.auto_remove)
              (λ d. d.auto_remove)
              (λ d. d.auto_remove)
              false
              member
              g
              k))
get_field_ptr_precedence_example =
    get_field_ptr_precedence lab "n1" (λ d. d.auto_remove) (λ d. d.auto_remove) (λ d. d.auto_remove)
      (λ d. d.auto_remove) false member lab-IsSound (unfold lookup in refl)

-- A kind with nothing behind it.
abbrev bare_kind : Topology
bare_kind = record new_topology {
  kinds = some (("srl", none) ∷ []);
  nodes = ("n1", some (record new_node_definition { kind = "srl" })) ∷ [];
}

abbrev mount : Bind
mount = record { src = "/a"; dst = "/b"; mode = "ro" }

new_bind_from_string-bind_string_example : new_bind_from_string (bind_string mount) ≡ ok mount
new_bind_from_string-bind_string_example =
    new_bind_from_string-bind_string mount (omega arith) (inl (ground (arith, eq_iff "/a" "")))
