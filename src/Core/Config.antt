-- ===== src/Core/Config.antt =====
-- core/config.go and core/clab.go: the checks on a lab before it is deployed, and the filter of its
-- nodes. A map that is a set holds values of the unit type.
pub mod Claims
pub mod Unique
pub mod Filter
pub mod Taken
pub mod Samples
use containerlab.Base.{
  ℕ, zero, suc, ◌+◌, ◌-◌, ◌*◌, ◌/◌, ◌%◌, ◌^◌, ◌≤◌, ◌<◌, String, ◌≡◌, refl, sym, ap, ◌∙◌, subst, ◌≢◌,
  ◌↔◌, ◌⊎◌, inl, inr, Bool, true, false, not, ◌&&◌, ◌||◌, Option, none, some, List, [], ◌∷◌, ◌++◌,
  map, arith, str_eq, eq_iff, eq_refl, ltb, leb, ◌==◌, if◌then◌else◌, Bool-cases, is_some, is_empty,
  Error, Outcome, ok, fail, panic, ◌>>=◌, deref, >>=-eq-ok, deref-eq-ok, is_ok, eq-ok_of_is_ok,
}
use containerlab.Base.Lists.{length, length-append, elem, Distinct, elem-append, slice}
use containerlab.Base.GoMap.{
  GoMap, lookup, insert, keys, lookup-insert, elem-keys-insert, lookup-eq-none,
}

-- An endpoint of a node, with the short name of the node that it reports.
pub record RootEndpoint : Type 0 where
  pub iface_name : String
  pub node_name : String

-- A node of c.Nodes: the parts of its configuration that the checks read, and its endpoints.
pub record LabNode : Type 0 where
  pub kind : String
  pub long_name : String
  pub mgmt_ipv4_address : String
  pub mgmt_ipv6_address : String
  pub is_root_namespace_based : Bool
  pub skip_uniqueness_check : Bool
  pub endpoints : List RootEndpoint

-- The loop over the endpoints of a node in verifyRootNetNSLinks.
unfoldable pub claim_endpoints : GoMap String → List RootEndpoint → Outcome (GoMap String)
claim_endpoints root_ep_names [] = ok root_ep_names
claim_endpoints root_ep_names (e ∷ endpoints) = elim (lookup e.iface_name root_ep_names) [
  | some val ↦ fail Error.duplicate_root_endpoint
  | none ↦ claim_endpoints (insert e.iface_name e.node_name root_ep_names) endpoints
]

-- Its loop over the nodes.
unfoldable pub claim_node_endpoints : GoMap String → GoMap LabNode → Outcome (GoMap String)
unfolding claim_endpoints
claim_node_endpoints root_ep_names [] = ok root_ep_names
claim_node_endpoints root_ep_names ((name, n) ∷ nodes) = do
  names ←
      (if n.is_root_namespace_based
        then claim_endpoints root_ep_names n.endpoints
        else ok root_ep_names)
  claim_node_endpoints names nodes

-- verifyRootNetNSLinks, with the endpoints of the special nodes host and mgmt-br.
unfoldable pub verify_root_net_ns_links :
    GoMap LabNode → List RootEndpoint → List RootEndpoint → Outcome (Unit {0})
unfolding claim_node_endpoints
verify_root_net_ns_links nodes host_endpoints mgmt_br_endpoints = do
  names ← claim_node_endpoints [] nodes
  names' ← claim_endpoints names host_endpoints
  names'' ← claim_endpoints names' mgmt_br_endpoints
  ok tt

-- Its counterpart for one address, which is in the set or not, and may be empty. What follows is
-- given for an address that is skipped and for one that is added.
abbrev pub claim_address :
    Option (Unit {0})
    → Bool
    → Outcome (GoMap (Unit {0}))
    → Outcome (GoMap (Unit {0}))
    → Outcome (GoMap (Unit {0}))
claim_address (some held) empty skipped added = fail Error.duplicate_address
claim_address none true skipped added = skipped
claim_address none false skipped added = added

-- The loop over the addresses of a node in verifyDuplicateAddresses.
unfoldable pub claim_addresses : GoMap (Unit {0}) → List String → Outcome (GoMap (Unit {0}))
claim_addresses dup_ips [] = ok dup_ips
claim_addresses dup_ips (ip ∷ ips) =
    claim_address (lookup ip dup_ips) (str_eq ip "") (claim_addresses dup_ips ips)
      (claim_addresses (insert ip tt dup_ips) ips)

unfoldable pub verify_addresses : GoMap (Unit {0}) → GoMap LabNode → Outcome (Unit {0})
unfolding claim_addresses
verify_addresses dup_ips [] = ok tt
verify_addresses dup_ips ((name, node) ∷ nodes) = do
  let skipped = str_eq node.mgmt_ipv4_address "" && str_eq node.mgmt_ipv6_address ""
  ips ←
      (if skipped
        then ok dup_ips
        else claim_addresses dup_ips (node.mgmt_ipv4_address ∷ node.mgmt_ipv6_address ∷ []))
  verify_addresses ips nodes

-- verifyDuplicateAddresses
unfoldable pub verify_duplicate_addresses : GoMap LabNode → Outcome (Unit {0})
unfolding verify_addresses
verify_duplicate_addresses nodes = verify_addresses [] nodes

-- A container of the runtime.
pub record GenericContainer : Type 0 where
  pub names : List String
  pub labels : GoMap String

-- containers[i].Names[0]
unfoldable pub first_name : GenericContainer → Outcome String
first_name container = with_first container.names
  where
    with_first : List String → Outcome String
    with_first [] = panic
    with_first (name ∷ names) = ok name

-- The loops of verifyContainersUniqueness that collect the names that are taken.
unfoldable pub taken_by : String → List GenericContainer → Outcome (List String)
unfolding first_name
taken_by long_name [] = ok []
taken_by long_name (container ∷ containers) = do
  name ← first_name container
  dups ← taken_by long_name containers
  ok (if str_eq long_name name then long_name ∷ dups else dups)

unfoldable pub taken_names : List GenericContainer → GoMap LabNode → Outcome (List String)
unfolding taken_by
taken_names containers [] = ok []
taken_names containers ((name, node) ∷ nodes) = do
  dups ← (if node.skip_uniqueness_check then ok [] else taken_by node.long_name containers)
  rest ← taken_names containers nodes
  ok (dups ++ rest)

-- A label that is not there reads as the empty text.
abbrev pub label : String → GoMap String → String
label key labels = elim (lookup key labels) [ none ↦ "" | some held ↦ held ]

unfoldable pub lab_is_running : String → List GenericContainer → Bool
lab_is_running lab_name [] = false
lab_is_running lab_name (container ∷ containers) =
    if str_eq (label "containerlab" container.labels) lab_name
    then true
    else lab_is_running lab_name containers

-- verifyContainersUniqueness, on the containers that the runtime lists.
unfoldable pub verify_containers_uniqueness :
    String → List GenericContainer → GoMap LabNode → Outcome (Unit {0})
unfolding taken_names lab_is_running
verify_containers_uniqueness lab_name containers nodes =
    if is_empty containers
    then ok tt
    else taken_names containers nodes >>= λ dups.
        if not (is_empty dups)
        then fail Error.containers_exist
        else if lab_is_running lab_name containers
        then fail Error.lab_exists
        else ok tt

-- HasKind
unfoldable pub has_kind : String → GoMap LabNode → Bool
has_kind k [] = false
has_kind k ((name, n) ∷ nodes) = if str_eq n.kind k then true else has_kind k nodes

-- filterClabNodes, on the nodes of a topology: the filter must name nodes of it.
unfoldable pub first_unknown {ℓ} : {V : Type ℓ} → List String → GoMap V → Bool
first_unknown [] nodes = false
first_unknown (n ∷ node_filter) nodes =
    if is_some (lookup n nodes) then first_unknown node_filter nodes else true

unfoldable pub excluding {ℓ} : {V : Type ℓ} → List String → GoMap V → GoMap V
excluding node_filter [] = []
excluding node_filter ((name, node) ∷ nodes) =
    if elem name node_filter
    then (name, node) ∷ excluding node_filter nodes
    else excluding node_filter nodes

unfoldable pub filter_clab_nodes {ℓ} : {V : Type ℓ} → List String → GoMap V → Outcome (GoMap V)
unfolding first_unknown excluding
filter_clab_nodes node_filter nodes =
    if is_empty node_filter
    then ok nodes
    else if first_unknown node_filter nodes
    then fail Error.node_not_in_topology
    else ok (excluding node_filter nodes)
