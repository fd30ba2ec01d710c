-- ===== src/Types/Topology/Panics.antt =====
-- Where the resolution dereferences a nil pointer.
use containerlab.Types.NodeDefinition.{NodeDefinition}
use containerlab.Types.Topology.{
  Topology, get_group, get_kind, get_node_group, get_node_kind, get_field, kind_of,
}
use containerlab.Base.{String, ◌≡◌, ◌≢◌, Bool, false, none, some, arith, eq_iff, ok, panic}
use containerlab.Base.GoMap.{lookup}

-- A topology without defaults panics on the kind of every node that sets no kind and whose group
-- sets none, though GetDefaults provides for missing defaults.
pub get_node_kind_nil_defaults :
    (t : Topology) (n : String) (d : NodeDefinition)
    → t.defaults ≡ none
    → lookup n t.nodes ≡ some (some d)
    → d.kind ≡ ""
    → kind_of (get_group t d.group) ≡ ""
    → get_node_kind t n ≡ panic
unfolding get_node_kind
get_node_kind_nil_defaults t n d e l k g =
    rw l (ground (arith, eq_iff d.kind "", eq_iff (kind_of (get_group t d.group)) ""))

get_node_kind_of_node :
    (t : Topology) (n : String) (d : NodeDefinition)
    → lookup n t.nodes ≡ some (some d)
    → d.kind ≢ ""
    → get_node_kind t n ≡ ok d.kind
unfolding get_node_kind
get_node_kind_of_node t n d l k = rw l (ground (arith, eq_iff d.kind ""))

get_node_group_nil_kind :
    (t : Topology) (n : String) (d : NodeDefinition)
    → lookup n t.nodes ≡ some (some d)
    → d.group ≡ ""
    → d.kind ≢ ""
    → get_kind t d.kind ≡ none
    → get_node_group t n ≡ panic
unfolding get_node_group
get_node_group_nil_kind t n d l g k nk =
    rw (l, get_node_group)
      (ground (arith, get_node_kind_of_node t n d l k, eq_iff d.group "", eq_iff d.kind "", nk))

module _ {ℓ} {T : Type ℓ} (t : Topology) (n : String) (fn fg fk fd : NodeDefinition → T)
    (is_set : T → Bool) (d : NodeDefinition) where
  -- Where a node sets its kind and no group, and its kind has a nil definition, reading any
  -- field that the node does not set panics.
  pub get_field_nil_kind :
      lookup n t.nodes ≡ some (some d)
      → d.group ≡ ""
      → d.kind ≢ ""
      → get_kind t d.kind ≡ none
      → is_set (fn d) ≡ false
      → get_field t n fn fg fk fd is_set ≡ panic
  unfolding get_field
  get_field_nil_kind l g k nk s =
      rw (l, get_field) (rw s (rw (get_node_group_nil_kind t n d l g k nk, get_field)))
