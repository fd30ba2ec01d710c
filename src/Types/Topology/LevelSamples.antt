-- ===== src/Types/Topology/LevelSamples.antt =====
-- A topology whose levels set stages, credentials and certificates, and the theorems at it.
use containerlab.Utils.Env.{merge_string_slices}
use containerlab.Utils.Env.Slices.{merge_string_slices_lem}
use containerlab.Types.Number.{ℤ}
use containerlab.Types.Stages.{StageBase, Stages, new_stages}
use containerlab.Types.NodeDefinition.{NodeDefinition, new_node_definition, CertificateConfig}
use containerlab.Types.Topology.{
  Topology, new_topology, get_defaults, get_group, get_kind, get_node_group, get_node_kind,
}
use containerlab.Types.Topology.Credentials.{ResolvedCredentials, resolve_topology_credentials}
use containerlab.Types.Topology.Layers.{get_certificate_config}
use containerlab.Types.Topology.CredentialLevels.{resolve_topology_credentials_lem, AreFrom}
use containerlab.Types.Topology.CertificateLevels.{get_certificate_config_lem}
use containerlab.Base.{String, ◌≡◌, refl, true, false, none, some, [], ◌∷◌, ok}
use containerlab.Base.GoMap.{lookup}

abbrev waits_for : String → StageBase
waits_for node = record { wait_for = record { node = node; stage = "create" } ∷ []; execs = [] }

abbrev router : NodeDefinition
router = record new_node_definition {
  stages = some (record new_stages { configure = some (waits_for "n2") });
  credentials = record { username = "admin"; password = "" };
  certificate = some (record {
    issue = some true;
    key_size = ℤ.pos 2048;
    validity_duration = ℤ.pos 0;
    sans = none;
  });
}

abbrev member : NodeDefinition
member = record new_node_definition {
  kind = "srl";
  group = "leaves";
  stages = some (record new_stages { configure = some (waits_for "n3") });
}

abbrev leaf : NodeDefinition
leaf = record new_node_definition {
  certificate =
      some (record {
        issue = some false;
        key_size = ℤ.pos 0;
        validity_duration = ℤ.pos 7;
        sans = none;
      });
}

abbrev lab : Topology
lab = record new_topology {
  kinds = some (("srl", some router) ∷ []);
  nodes = ("n1", some member) ∷ [];
  groups = some (("leaves", some leaf) ∷ []);
}

program : Unit {0}
unfolding get_node_kind get_node_group get_kind get_group get_defaults lookup
program = tt

kind_of_n1 : get_node_kind lab "n1" ≡ ok "srl"
unfolding program
kind_of_n1 = refl

group_of_n1 : get_node_group lab "n1" ≡ ok "leaves"
unfolding program
group_of_n1 = refl

resolve_topology_credentials_lem_example :
    (r : ResolvedCredentials) × (resolve_topology_credentials lab "n1" ≡ ok r)
    × AreFrom lab (some member) "srl" "leaves" r
resolve_topology_credentials_lem_example =
    resolve_topology_credentials_lem lab "n1" "srl" "leaves" (some member) (unfold lookup in refl)
      kind_of_n1 group_of_n1

get_certificate_config_lem_example :
    (c : CertificateConfig) × (get_certificate_config lab "n1" ≡ ok c)
    × (c.issue ≡ some false)
    × (c.key_size ≡ ℤ.pos 2048)
    × (c.validity_duration ≡ ℤ.pos 7)
    × (c.sans ≡ none)
unfolding program
get_certificate_config_lem_example =
    get_certificate_config_lem lab "n1" "srl" "leaves" kind_of_n1 group_of_n1

merge_string_slices_lem_example :
    merge_string_slices (some ("x" ∷ "y" ∷ []) ∷ none ∷ some ("z" ∷ "x" ∷ []) ∷ [])
    ≡ some ("x" ∷ "y" ∷ "z" ∷ [])
merge_string_slices_lem_example =
    merge_string_slices_lem (some ("x" ∷ "y" ∷ []) ∷ none ∷ some ("z" ∷ "x" ∷ []) ∷ [])
