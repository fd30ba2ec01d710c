-- ===== src/Links/Brief.antt =====
-- links/link_brief.go and the conversions of each kind of link from and to its brief form.
use containerlab.Links.{
  LinkType, mac_vlan_type, mgmt_net_type, host_type, parse_link_type, LinkCommonParams, EndpointRaw,
  new_endpoint_raw, not_deployed, LinkBriefRaw, RawLink, mac_vlan, mgmt_net, host, veth,
}
use containerlab.Types.Text.{split_n2, trim_space}
use containerlab.Types.Bind.{colon_join}
use containerlab.Base.{
  ℕ, zero, suc, ◌+◌, ◌%◌, String, Bool, true, false, Option, none, some, List, [], ◌∷◌, str_eq, ltb,
  ◌==◌, if◌then◌else◌, Error, Outcome, ok, fail, panic, ◌>>=◌,
}
use containerlab.Base.Lists.{length}

-- endpoints[i], which panics out of range.
unfoldable pub index {ℓ} : {A : Type ℓ} → List A → ℕ → Outcome A
index [] i = panic
index (x ∷ xs) zero = ok x
index (x ∷ xs) (suc i) = index xs i

abbrev pub InterfaceData : Type 0
InterfaceData = (String × String) × (String × String)

-- An endpoint <node>:<port>.
unfoldable pub node_and_port : String → Outcome (String × String)
unfolding split_n2
node_and_port endpoint = with_port (split_n2 b':' endpoint)
  where
    with_port : String × Option String → Outcome (String × String)
    with_port (node, none) = fail Error.invalid_endpoint
    with_port (node, some port) = ok (node, port)

-- extractHostNodeInterfaceData
unfoldable pub extract_host_node_interface_data : List String → ℕ → Outcome InterfaceData
unfolding index node_and_port
extract_host_node_interface_data endpoints special_ep_index = do
  host_endpoint ← index endpoints special_ep_index
  node_endpoint ← index endpoints ((special_ep_index + 1) % 2)
  host_data ← node_and_port host_endpoint
  node_data ← node_and_port node_endpoint
  ok (host_data, node_data)

default_link_mtu : ℕ
default_link_mtu = 9500

-- The MTU is set if it is unset.
unfoldable pub with_mtu : {V : Type 0} → LinkCommonParams V → LinkCommonParams V
unfolding default_link_mtu
with_mtu common = if common.mtu == 0 then record common { mtu = default_link_mtu } else common

-- The addresses of a family are given to the endpoints, one after the other. The parser of prefixes
-- says for a text whether it is a prefix, and of which family.
pub data Family : Type 0 where
  is4 is6 : Family

abbrev pub same_family : Family → Family → Bool
same_family is4 is4 = true
same_family is6 is6 = true
same_family _ _ = false

unfoldable pub with_address : {V : Type 0} → Family → String → EndpointRaw V → EndpointRaw V
with_address is4 cidr e = record e { ipv4 = cidr }
with_address is6 cidr e = record e { ipv6 = cidr }

module _ {V : Type 0} (parse_prefix : String → Option Family) where
  -- The loop of parseVarIPBrief.
  unfoldable pub parse_var_ip_loop :
      Family → List String → List (EndpointRaw V) → Outcome (List (EndpointRaw V))
  unfolding with_address trim_space
  parse_var_ip_loop af [] endpoints = ok endpoints
  parse_var_ip_loop af (val ∷ vals) [] = panic
  parse_var_ip_loop af (val ∷ vals) (e ∷ endpoints) =
      let cidr = trim_space val in
      let rest = parse_var_ip_loop af vals endpoints in
      if str_eq cidr "" then (rest >>= λ es. ok (e ∷ es)) else elim (parse_prefix cidr) [
        | none ↦ fail Error.invalid_prefix
        | some family ↦
            if same_family family af
            then (rest >>= λ es. ok (with_address af cidr e ∷ es))
            else fail Error.invalid_prefix
      ]

  unfoldable pub parse_var_ip_brief :
      Family → List String → List (EndpointRaw V) → Outcome (List (EndpointRaw V))
  unfolding parse_var_ip_loop
  parse_var_ip_brief af vals endpoints =
      if ltb (length endpoints) (length vals)
      then fail Error.too_many_addresses
      else parse_var_ip_loop af vals endpoints

  unfoldable pub map_brief_vars_to_endpoints :
      LinkCommonParams V → List (EndpointRaw V) → Outcome (List (EndpointRaw V))
  unfolding parse_var_ip_brief
  map_brief_vars_to_endpoints common endpoints = do
    endpoints' ← parse_var_ip_brief is4 common.ipv4 endpoints
    parse_var_ip_brief is6 common.ipv6 endpoints'

  unfoldable pub mac_vlan_link_from_brief : LinkBriefRaw V → ℕ → Outcome (RawLink V)
  unfolding extract_host_node_interface_data new_endpoint_raw with_mtu
  mac_vlan_link_from_brief lb special_ep_index = do
    data' ← extract_host_node_interface_data lb.endpoints special_ep_index
    ok (
        mac_vlan (record {
          common = with_mtu lb.common;
          host_interface = data'.0.1;
          endpoint = new_endpoint_raw data'.1.0 data'.1.1 "";
          mode = "";
        }))

  unfoldable pub mgmt_net_link_from_brief : LinkBriefRaw V → ℕ → Outcome (RawLink V)
  unfolding extract_host_node_interface_data new_endpoint_raw with_mtu
  mgmt_net_link_from_brief lb special_ep_index = do
    data' ← extract_host_node_interface_data lb.endpoints special_ep_index
    ok (
        mgmt_net (record {
          common = with_mtu lb.common;
          host_interface = data'.0.1;
          endpoint = new_endpoint_raw data'.1.0 data'.1.1 "";
        }))

  unfoldable pub host_link_from_brief : LinkBriefRaw V → ℕ → Outcome (RawLink V)
  unfolding extract_host_node_interface_data new_endpoint_raw with_mtu
  host_link_from_brief lb special_ep_index = do
    data' ← extract_host_node_interface_data lb.endpoints special_ep_index
    ok (
        host (record {
          common = with_mtu lb.common;
          host_interface = data'.0.1;
          endpoint = new_endpoint_raw data'.1.0 data'.1.1 "";
        }))

  unfoldable pub link_veth_raw_from_link_brief_raw : LinkBriefRaw V → Outcome (RawLink V)
  unfolding extract_host_node_interface_data new_endpoint_raw with_mtu map_brief_vars_to_endpoints
  link_veth_raw_from_link_brief_raw lb = do
    data' ← extract_host_node_interface_data lb.endpoints 0
    endpoints ←
        map_brief_vars_to_endpoints lb.common
          (new_endpoint_raw data'.0.0 data'.0.1 "" ∷ new_endpoint_raw data'.1.0 data'.1.1 "" ∷ [])
    ok (veth (record { common = with_mtu lb.common; endpoints = endpoints }))

  -- The switch on the type that the node of endpoint x stands for, if it stands for one.
  unfoldable pub dispatch :
      Outcome LinkType → LinkBriefRaw V → ℕ → Outcome (RawLink V) → Outcome (RawLink V)
  unfolding mac_vlan_link_from_brief mgmt_net_link_from_brief host_link_from_brief
  dispatch (ok mac_vlan_type) l x otherwise = mac_vlan_link_from_brief l x
  dispatch (ok mgmt_net_type) l x otherwise = mgmt_net_link_from_brief l x
  dispatch (ok host_type) l x otherwise = host_link_from_brief l x
  dispatch _ l x otherwise = otherwise

  -- The loop over the endpoints, from endpoint x on.
  unfoldable pub specific_loop : LinkBriefRaw V → ℕ → List String → Outcome (RawLink V)
  unfolding split_n2 parse_link_type dispatch link_veth_raw_from_link_brief_raw
  specific_loop l x [] = link_veth_raw_from_link_brief_raw l
  specific_loop l x (v ∷ endpoints) =
      dispatch (parse_link_type (split_n2 b':' v).0) l x (specific_loop l (x + 1) endpoints)

  -- LinkBriefRaw.ToTypeSpecificRawLink
  unfoldable pub to_type_specific_raw_link : LinkBriefRaw V → Outcome (RawLink V)
  unfolding specific_loop
  to_type_specific_raw_link l =
      if length l.endpoints == 2
      then specific_loop l 0 l.endpoints
      else fail Error.wrong_endpoint_count

-- The ToLinkBriefRaw of each kind.
abbrev pub endpoint_text : {V : Type 0} → EndpointRaw V → String
endpoint_text e = colon_join e.node e.iface

abbrev pub all_texts : {V : Type 0} → List (EndpointRaw V) → List String
all_texts [] = []
all_texts (e ∷ endpoints) = endpoint_text e ∷ all_texts endpoints

-- Of the common parameters, only three are kept for macvlan and mgmt-net links.
unfoldable pub kept_params : {V : Type 0} → LinkCommonParams V → LinkCommonParams V
kept_params common = record {
  mtu = common.mtu;
  labels = common.labels;
  ipv4 = [];
  ipv6 = [];
  vars = common.vars;
  deployment_state = not_deployed;
}

unfoldable pub to_link_brief_raw : {V : Type 0} → RawLink V → LinkBriefRaw V
unfolding kept_params
to_link_brief_raw (mac_vlan r) = record {
  endpoints = endpoint_text r.endpoint ∷ colon_join "macvlan" r.host_interface ∷ [];
  common = kept_params r.common;
}
to_link_brief_raw (mgmt_net r) = record {
  endpoints = endpoint_text r.endpoint ∷ colon_join "mgmt-net" r.host_interface ∷ [];
  common = kept_params r.common;
}
to_link_brief_raw (host r) = record {
  endpoints = endpoint_text r.endpoint ∷ colon_join "host" r.host_interface ∷ [];
  common = r.common;
}
to_link_brief_raw (veth r) = record { endpoints = all_texts r.endpoints; common = r.common }
