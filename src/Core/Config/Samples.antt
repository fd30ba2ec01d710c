-- ===== src/Core/Config/Samples.antt =====
-- A small lab, and the theorems about the checks at it.
use containerlab.Core.Config.{
  RootEndpoint, LabNode, GenericContainer, verify_root_net_ns_links, verify_duplicate_addresses,
  verify_containers_uniqueness, filter_clab_nodes,
}
use containerlab.Core.Config.Unique.{
  Checks, root_claims, claims_of, address_claims, verify_root_net_ns_links_lem,
  verify_duplicate_addresses_lem,
}
use containerlab.Core.Config.Filter.{all_known, filter_clab_nodes_lem}
use containerlab.Core.Config.Taken.{any_taken, lab_names, verify_containers_uniqueness_lem}
use containerlab.Base.{
  String, ◌≡◌, refl, ◌⊎◌, true, false, none, List, [], ◌∷◌, ◌++◌, if◌then◌else◌, Error, ok, fail,
}
use containerlab.Base.Lists.{elem}
use containerlab.Base.GoMap.{GoMap, lookup, insert, keys}

abbrev endpoint : String → String → RootEndpoint
endpoint iface node_name = record { iface_name = iface; node_name = node_name }

-- A bridge in the root namespace, and two nodes with static addresses.
abbrev nodes : GoMap LabNode
nodes =
    (
      "br",
      record {
        kind = "bridge";
        long_name = "br";
        mgmt_ipv4_address = "";
        mgmt_ipv6_address = "";
        is_root_namespace_based = true;
        skip_uniqueness_check = true;
        endpoints = endpoint "eth1" "br" ∷ endpoint "eth2" "br" ∷ [];
      },
    )
    ∷ (
      "srl",
      record {
        kind = "nokia_srlinux";
        long_name = "clab-lab-srl";
        mgmt_ipv4_address = "172.20.20.2";
        mgmt_ipv6_address = "";
        is_root_namespace_based = false;
        skip_uniqueness_check = false;
        endpoints = endpoint "eth1" "srl" ∷ [];
      },
    )
    ∷ (
      "ceos",
      record {
        kind = "arista_ceos";
        long_name = "clab-lab-ceos";
        mgmt_ipv4_address = "172.20.20.2";
        mgmt_ipv6_address = "2001:db8::2";
        is_root_namespace_based = false;
        skip_uniqueness_check = false;
        endpoints = [];
      },
    )
    ∷ []

abbrev container : GenericContainer
container = record { names = "clab-lab-srl" ∷ []; labels = ("containerlab", "lab") ∷ [] }

twice : verify_duplicate_addresses nodes ≡ fail Error.duplicate_address
unfolding verify_duplicate_addresses lookup insert
twice = refl

verify_root_net_ns_links_lem_example :
    Checks Error.duplicate_root_endpoint
      (verify_root_net_ns_links nodes (endpoint "eth2" "host" ∷ []) [])
      (keys ((root_claims nodes ++ claims_of (endpoint "eth2" "host" ∷ [])) ++ claims_of []))
verify_root_net_ns_links_lem_example =
    verify_root_net_ns_links_lem nodes (endpoint "eth2" "host" ∷ []) []

verify_duplicate_addresses_lem_example :
    Checks Error.duplicate_address (verify_duplicate_addresses nodes) (keys (address_claims nodes))
verify_duplicate_addresses_lem_example = verify_duplicate_addresses_lem nodes

verify_containers_uniqueness_lem_example :
    verify_containers_uniqueness "lab" (container ∷ []) nodes ≡ (
      if any_taken (container ∷ []) nodes
      then fail Error.containers_exist
      else if elem "lab" (lab_names (container ∷ []))
      then fail Error.lab_exists
      else ok tt)
verify_containers_uniqueness_lem_example =
    verify_containers_uniqueness_lem "lab" (container ∷ []) nodes (refl, tt)

abbrev wanted : List String
wanted = "srl" ∷ []

filter_clab_nodes_lem_example :
    ((wanted ≡ []) × (filter_clab_nodes wanted nodes ≡ ok nodes))
    ⊎ ((all_known wanted nodes ≡ false)
        × (filter_clab_nodes wanted nodes ≡ fail Error.node_not_in_topology))
    ⊎ ((all_known wanted nodes ≡ true)
        × (kept : GoMap LabNode) × (filter_clab_nodes wanted nodes ≡ ok kept)
        × ((n : String) → lookup n kept ≡ (if elem n wanted then lookup n nodes else none)))
filter_clab_nodes_lem_example = filter_clab_nodes_lem wanted nodes
