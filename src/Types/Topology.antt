-- ===== src/Types/Topology.antt =====
-- types/topology.go: a topology, and the rules that resolve a setting of a node from the levels
-- node, group, kind and defaults. `panic` is the dereference of a nil pointer.
pub mod Texts
pub mod Getters
pub mod Credentials
pub mod Layers
pub mod Sound
pub mod Resolution
pub mod Pointers
pub mod Panics
pub mod Merged
pub mod StageLevels
pub mod CredentialLevels
pub mod CertificateLevels
mod Samples
mod LevelSamples
use containerlab.Types.Text.{trim_space}
use containerlab.Types.NodeDefinition.{NodeDefinition, new_node_definition}
use containerlab.Utils.Env.{merge_string_maps, merge_string_slices}
use containerlab.Base.{
  String, Bool, not, Option, none, some, List, [], ◌∷◌, str_eq, if◌then◌else◌, Outcome, ok, ◌>>=◌,
  deref,
}
use containerlab.Base.GoMap.{GoMap, lookup}

-- A map of definitions may hold a nil pointer (`kinds: {k: }` in YAML), and may be nil itself. A
-- read of nil nodes is a read of an empty map.
pub record Topology : Type 0 where
  pub defaults : Option NodeDefinition
  pub kinds : Option (GoMap (Option NodeDefinition))
  pub nodes : GoMap (Option NodeDefinition)
  pub groups : Option (GoMap (Option NodeDefinition))

abbrev pub new_topology : Topology
new_topology = record {
  defaults = some new_node_definition;
  kinds = some [];
  nodes = [];
  groups = some [];
}

-- s != ""
abbrev pub is_set_text : String → Bool
is_set_text s = not (str_eq s "")

abbrev pub or_new : Option NodeDefinition → NodeDefinition
or_new none = new_node_definition
or_new (some d) = d

unfoldable pub get_defaults : Topology → NodeDefinition
get_defaults t = or_new t.defaults

abbrev kind_entry : Option (Option NodeDefinition) → Option NodeDefinition
kind_entry none = some new_node_definition
kind_entry (some kdef) = kdef

unfoldable pub get_kind : Topology → String → Option NodeDefinition
get_kind t kind = elim t.kinds [
  | none ↦ some new_node_definition
  | some kinds ↦ kind_entry (lookup kind kinds)
]

abbrev group_entry : Option (Option NodeDefinition) → Option NodeDefinition
group_entry none = none
group_entry (some gdef) = gdef

unfoldable pub get_group : Topology → String → Option NodeDefinition
get_group t group = elim t.groups [ none ↦ none | some groups ↦ group_entry (lookup group groups) ]

-- The kind that a definition names, "" for none and for a nil pointer.
abbrev pub kind_of : Option NodeDefinition → String
kind_of none = ""
kind_of (some d) = d.kind

-- The end of GetNodeKind. `t.Defaults` is read without the test that GetDefaults makes.
unfoldable pub defaults_group_kind : Topology → Outcome String
unfolding get_group get_defaults
defaults_group_kind t = do
  d ← deref t.defaults
  ok (
      if is_set_text (kind_of (get_group t d.group))
      then kind_of (get_group t d.group)
      else (get_defaults t).kind)

unfoldable pub node_kind : Topology → Option (Option NodeDefinition) → Outcome String
unfolding defaults_group_kind
node_kind t none = ok (get_defaults t).kind
node_kind t (some none) = defaults_group_kind t
node_kind t (some (some d)) =
    if is_set_text d.kind
    then ok d.kind
    else if is_set_text (kind_of (get_group t d.group))
    then ok (kind_of (get_group t d.group))
    else defaults_group_kind t

unfoldable pub get_node_kind : Topology → String → Outcome String
unfolding node_kind
get_node_kind t node_name = node_kind t (lookup node_name t.nodes)

-- The group of the node's kind, or else of the defaults.
unfoldable pub kind_group : Topology → String → Outcome String
unfolding get_kind get_defaults
kind_group t kind =
    if is_set_text kind
    then (do
      k ← deref (get_kind t kind)
      ok (if is_set_text k.group then k.group else (get_defaults t).group))
    else ok (get_defaults t).group

unfoldable pub get_node_group : Topology → String → Outcome String
unfolding kind_group get_node_kind
get_node_group t node_name = elim (lookup node_name t.nodes) [
  | none ↦ ok (get_defaults t).group
  | some none ↦ ok (get_defaults t).group
  | some (some d) ↦
      if is_set_text d.group
      then ok d.group
      else (do kind ← get_node_kind t node_name; kind_group t kind)
]

-- One level of the search: the field of a definition that is there and sets it, or else the rest.
abbrev pub level {ℓ} :
    {T : Type ℓ} → Option NodeDefinition → (NodeDefinition → T) → (T → Bool) → Outcome T → Outcome T
level none field is_set rest = rest
level (some d) field is_set rest = if is_set (field d) then ok (field d) else rest

-- getField
unfoldable pub get_field {ℓ} :
    {T : Type ℓ}
    → Topology
    → String
    → (NodeDefinition → T)
    → (NodeDefinition → T)
    → (NodeDefinition → T)
    → (NodeDefinition → T)
    → (T → Bool)
    → Outcome T
get_field topo node_name field_node field_group field_kind field_defaults is_set =
    elim (lookup node_name topo.nodes) [
      | none ↦ ok (field_defaults (get_defaults topo))
      | some node ↦ level node field_node is_set (do
        g ← get_node_group topo node_name
        level (get_group topo g) field_group is_set (do
          k ← get_node_kind topo node_name
          level (get_kind topo k) field_kind is_set (ok (field_defaults (get_defaults topo)))))
    ]

-- One level of the search for a pointer: what it points to is returned.
abbrev pub level_ptr {ℓ} :
    {T : Type ℓ}
    → Option NodeDefinition
    → (NodeDefinition → Option T)
    → (Option T → Bool)
    → Outcome T
    → Outcome T
level_ptr none field is_set rest = rest
level_ptr (some d) field is_set rest = if is_set (field d) then deref (field d) else rest

abbrev pub or_value {ℓ} : {T : Type ℓ} → Option T → T → T
or_value none d = d
or_value (some v) d = v

-- getFieldPtr
unfoldable pub get_field_ptr {ℓ} :
    {T : Type ℓ}
    → Topology
    → String
    → (NodeDefinition → Option T)
    → (NodeDefinition → Option T)
    → (NodeDefinition → Option T)
    → (NodeDefinition → Option T)
    → (Option T → Bool)
    → T
    → Outcome T
get_field_ptr topo node_name field_node field_group field_kind field_defaults is_set last_resort =
    let final_default = or_value (field_defaults (get_defaults topo)) last_resort in
    elim (lookup node_name topo.nodes) [
      | none ↦ ok final_default
      | some none ↦ ok final_default
      | some (some node) ↦ level_ptr (some node) field_node is_set (do
        g ← get_node_group topo node_name
        level_ptr (get_group topo g) field_group is_set (do
          k ← get_node_kind topo node_name
          level_ptr (get_kind topo k) field_kind is_set (ok final_default)))
    ]

-- The field of a definition, nil where the definition is nil.
abbrev pub field_of {ℓ} :
    {T : Type ℓ} → (NodeDefinition → Option T) → Option NodeDefinition → Option T
field_of field none = none
field_of field (some d) = field d

-- mergeStringSliceFields
unfoldable pub merge_string_slice_fields :
    Topology
    → String
    → (NodeDefinition → Option (List String))
    → (NodeDefinition → Option (List String))
    → (NodeDefinition → Option (List String))
    → (NodeDefinition → Option (List String))
    → Outcome (Option (List String))
merge_string_slice_fields topo node_name field_node field_group field_kind field_defaults =
    elim (lookup node_name topo.nodes) [
      | none ↦ ok none
      | some node ↦ do
        g ← get_node_group topo node_name
        k ← get_node_kind topo node_name
        ok (
            merge_string_slices (
              field_defaults (get_defaults topo)
              ∷ field_of field_kind (get_kind topo k)
              ∷ field_of field_group (get_group topo g)
              ∷ field_of field_node node
              ∷ []))
    ]

-- mergeStringMapFields
unfoldable pub merge_string_map_fields :
    Topology
    → String
    → (NodeDefinition → Option (GoMap String))
    → (NodeDefinition → Option (GoMap String))
    → (NodeDefinition → Option (GoMap String))
    → (NodeDefinition → Option (GoMap String))
    → Outcome (GoMap String)
merge_string_map_fields topo node_name field_node field_group field_kind field_defaults =
    elim (lookup node_name topo.nodes) [
      | none ↦ ok []
      | some node ↦ do
        g ← get_node_group topo node_name
        k ← get_node_kind topo node_name
        ok (
            or_value
              (merge_string_maps (
                field_defaults (get_defaults topo)
                ∷ field_of field_kind (get_kind topo k)
                ∷ field_of field_group (get_group topo g)
                ∷ field_of field_node node
                ∷ []))
              [])
    ]

-- The levels of GetNodeType behind the node's own: a group's or a kind's type is trimmed.
unfoldable pub inherited_type : Topology → String → Outcome String
inherited_type t node_name = do
  g ← get_node_group t node_name
  k ←
      (level (get_group t g) (λ d. d.type) is_set_text
        (do k ← get_node_kind t node_name; level (get_kind t k) (λ d. d.type) is_set_text (ok "")))
  ok (if is_set_text k then trim_space k else (get_defaults t).type)

unfoldable pub get_node_type : Topology → String → Outcome String
unfolding inherited_type
get_node_type t node_name = elim (lookup node_name t.nodes) [
  | none ↦ ok (get_defaults t).type
  | some none ↦ inherited_type t node_name
  | some (some d) ↦
      if is_set_text d.type then ok (trim_space d.type) else inherited_type t node_name
]
