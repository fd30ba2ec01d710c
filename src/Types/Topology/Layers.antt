-- ===== src/Types/Topology/Layers.antt =====
-- types/topology.go: the settings that are merged level by level: stages, certificates, binds; and
-- the aliases, which only the node sets.
use containerlab.Types.NodeDefinition.{
  NodeDefinition, CertificateConfig, merge_certificate, import_envs,
}
use containerlab.Types.Number.{ℤ}
use containerlab.Types.Stages.{Stages, new_stages, merge, init_defaults}
use containerlab.Types.Bind.{Bind, new_bind_from_string, bind_string}
use containerlab.Types.Topology.{
  Topology, get_defaults, get_group, get_kind, get_node_group, get_node_kind, field_of,
  merge_string_slice_fields,
}
use containerlab.Base.{
  String, false, Option, none, some, List, [], ◌∷◌, if◌then◌else◌, is_empty, Outcome, ok, ◌>>=◌,
}
use containerlab.Base.Lists.{slice}
use containerlab.Base.GoMap.{GoMap, lookup, insert}

-- What is merged at one level: nothing where the definition or its stages are nil. The error that
-- Merge returns is dropped, and it never returns one.
abbrev pub merge_level : Option Stages → Stages → Outcome Stages
merge_level none s = ok s
merge_level (some other) s = merge s other

-- t.Nodes[nodeName]: nil where the node is missing.
abbrev pub node_entry : Option (Option NodeDefinition) → Option NodeDefinition
node_entry none = none
node_entry (some d) = d

-- GetStages
unfoldable pub get_stages : Topology → String → Outcome Stages
unfolding merge init_defaults
get_stages t node_name = do
  s₀ ← merge_level (get_defaults t).stages new_stages
  k ← get_node_kind t node_name
  s₁ ← merge_level (field_of (λ d. d.stages) (get_kind t k)) s₀
  g ← get_node_group t node_name
  s₂ ← merge_level (field_of (λ d. d.stages) (get_group t g)) s₁
  s₃ ← merge_level (field_of (λ d. d.stages) (node_entry (lookup node_name t.nodes))) s₂
  init_defaults s₃

-- Issuing is off by default.
abbrev pub default_certificate : CertificateConfig
default_certificate = record {
  issue = some false;
  key_size = ℤ.pos 0;
  validity_duration = ℤ.pos 0;
  sans = none;
}

-- GetCertificateConfig
unfoldable pub get_certificate_config : Topology → String → Outcome CertificateConfig
unfolding merge_certificate
get_certificate_config t node_name = do
  let cc₀ = merge_certificate default_certificate (get_defaults t).certificate
  k ← get_node_kind t node_name
  let cc₁ = merge_certificate cc₀ (field_of (λ d. d.certificate) (get_kind t k))
  g ← get_node_group t node_name
  let cc₂ = merge_certificate cc₁ (field_of (λ d. d.certificate) (get_group t g))
  ok (merge_certificate cc₂ (field_of (λ d. d.certificate) (node_entry (lookup node_name t.nodes))))

-- GetNodeAliases
unfoldable pub get_node_aliases : Topology → String → Option (List String)
get_node_aliases t node_name = field_of (λ d. d.aliases) (node_entry (lookup node_name t.nodes))

-- The loop of GetNodeBinds: a bind replaces an earlier one of the same destination.
unfoldable pub bind_loop : List String → GoMap Bind → Outcome (GoMap Bind)
unfolding new_bind_from_string
bind_loop [] binds = ok binds
bind_loop (bind ∷ sources) binds = do
  b ← new_bind_from_string bind
  bind_loop sources (insert b.dst b binds)

abbrev pub bind_strings : GoMap Bind → List String
bind_strings [] = []
bind_strings ((dst, b) ∷ binds) = bind_string b ∷ bind_strings binds

-- GetNodeBinds. The order of the result is that of the map.
unfoldable pub get_node_binds : Topology → String → Outcome (Option (List String))
unfolding merge_string_slice_fields bind_loop bind_string
get_node_binds t node_name = do
  sources ←
      (merge_string_slice_fields t node_name (λ node. node.binds) (λ group. group.binds)
        (λ kind. kind.binds) (λ defaults. defaults.binds))
  if is_empty (slice sources) then ok none else (do
    binds ← bind_loop (slice sources) []
    ok (if is_empty binds then none else some (bind_strings binds)))

-- ImportEnvs, over every definition of a map.
unfoldable pub import_all :
    List String → GoMap (Option NodeDefinition) → GoMap (Option NodeDefinition)
unfolding import_envs
import_all environ [] = []
import_all environ ((k, d) ∷ m) = (k, import_envs environ d) ∷ import_all environ m

abbrev pub import_map :
    List String → Option (GoMap (Option NodeDefinition)) → Option (GoMap (Option NodeDefinition))
import_map environ none = none
import_map environ (some m) = some (import_all environ m)

-- Topology.ImportEnvs. The argument is os.Environ().
unfoldable pub import_topology_envs : List String → Topology → Topology
unfolding import_all
import_topology_envs environ t = record {
  defaults = import_envs environ t.defaults;
  kinds = import_map environ t.kinds;
  nodes = import_all environ t.nodes;
  groups = import_map environ t.groups;
}
