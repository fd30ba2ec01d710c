-- ===== src/Types/Topology/Credentials.antt =====
-- types/topology.go: resolveTopologyCredentials and its three getters.
use containerlab.Types.NodeDefinition.{NodeDefinition, NodeCredentials}
use containerlab.Types.Topology.{
  Topology, get_defaults, get_group, get_kind, get_node_group, get_node_kind, is_set_text,
}
use containerlab.Base.{String, Bool, ◌||◌, Option, none, some, if◌then◌else◌, Outcome, ok, ◌>>=◌}
use containerlab.Base.GoMap.{lookup}

pub data CredentialTopologySource : Type 0 where
  unset from_defaults from_kind from_group from_node : CredentialTopologySource

pub record ResolvedCredentials : Type 0 where
  pub username : String
  pub password : String
  pub source : CredentialTopologySource

abbrev pub credentials_present : NodeCredentials → Bool
credentials_present c = is_set_text c.username || is_set_text c.password

-- The pair of a definition that is there and sets one of the two, or else the rest.
abbrev pub credentials_level :
    Option NodeDefinition
    → CredentialTopologySource
    → Outcome ResolvedCredentials
    → Outcome ResolvedCredentials
credentials_level none source rest = rest
credentials_level (some d) source rest =
    if credentials_present d.credentials
    then ok (record {
      username = d.credentials.username;
      password = d.credentials.password;
      source = source;
    })
    else rest

abbrev pub no_credentials : ResolvedCredentials
no_credentials = record { username = ""; password = ""; source = unset }

unfoldable pub resolve_topology_credentials : Topology → String → Outcome ResolvedCredentials
resolve_topology_credentials t node_name = elim (lookup node_name t.nodes) [
  | none ↦ ok no_credentials
  | some node ↦ credentials_level node from_node (do
    g ← get_node_group t node_name
    credentials_level (get_group t g) from_group (do
      k ← get_node_kind t node_name
      credentials_level (get_kind t k) from_kind
          (credentials_level (some (get_defaults t)) from_defaults (ok no_credentials))))
]

-- GetNodeUsername
unfoldable pub get_node_username : Topology → String → Outcome String
unfolding resolve_topology_credentials
get_node_username t node_name = do r ← resolve_topology_credentials t node_name; ok r.username

-- GetNodePassword
unfoldable pub get_node_password : Topology → String → Outcome String
unfolding resolve_topology_credentials
get_node_password t node_name = do r ← resolve_topology_credentials t node_name; ok r.password

-- GetNodeCredentialsTopologySource
unfoldable pub get_node_credentials_topology_source :
    Topology → String → Outcome CredentialTopologySource
unfolding resolve_topology_credentials
get_node_credentials_topology_source t node_name = do
  r ← resolve_topology_credentials t node_name
  ok r.source
