-- ===== src/Links.antt =====
-- links: link definitions of a topology. The maps of link variables hold values of any type, which
-- are only passed on; V stands for these maps. An int is its bit pattern.
pub mod Brief
pub mod Texts
pub mod BriefRoundTrip
pub mod InterfaceName
pub mod Store
pub mod Ownership
pub mod Parking
pub mod Discovery
pub mod VethDeploy
pub mod Samples
use Prim.Native.String.{◌++◌ as ◌++s◌}
use containerlab.Types.Text.{folds_to}
use containerlab.Base.{
  ℕ, zero, suc, ◌+◌, ◌-◌, ◌*◌, ◌/◌, ◌%◌, ◌^◌, ◌≤◌, ◌<◌, String, ◌≡◌, refl, sym, ap, ◌∙◌, subst, ◌≢◌,
  ◌↔◌, ◌⊎◌, inl, inr, Bool, true, false, not, ◌&&◌, ◌||◌, Option, none, some, List, [], ◌∷◌, ◌++◌,
  map, arith, str_eq, eq_iff, eq_refl, ltb, leb, ◌==◌, if◌then◌else◌, Bool-cases, is_some, is_empty,
  Error, Outcome, ok, fail, panic, ◌>>=◌, deref, >>=-eq-ok, deref-eq-ok, is_ok, eq-ok_of_is_ok,
}
use containerlab.Base.Lists.{length, length-append, elem, Distinct, elem-append, slice}
use containerlab.Base.GoMap.{
  GoMap, lookup, insert, keys, lookup-insert, elem-keys-insert, lookup-eq-none,
}

pub data LinkType : Type 0 where
  veth_type mgmt_net_type mac_vlan_type host_type vxlan_type vxlan_stitch_type dummy_type : LinkType
  bridge_type brief_type : LinkType

-- parseLinkType. The type of a bridge has no case of its own.
unfoldable pub parse_link_type : String → Outcome LinkType
unfolding folds_to
parse_link_type s =
    if folds_to s "macvlan"
    then ok mac_vlan_type
    else if folds_to s "veth"
    then ok veth_type
    else if folds_to s "mgmt-net"
    then ok mgmt_net_type
    else if folds_to s "host"
    then ok host_type
    else if folds_to s "brief"
    then ok brief_type
    else if folds_to s "vxlan"
    then ok vxlan_type
    else if folds_to s "vxlan-stitch"
    then ok vxlan_stitch_type
    else if folds_to s "dummy"
    then ok dummy_type
    else fail Error.unable_to_parse_link_type

pub data LinkDeploymentState : Type 0 where
  not_deployed half_deployed full_deployed removed : LinkDeploymentState

pub record LinkCommonParams (V : Type 0) : Type 0 where
  pub mtu : ℕ
  pub labels : Option (GoMap String)
  pub ipv4 : List String
  pub ipv6 : List String
  pub vars : Option V
  pub deployment_state : LinkDeploymentState

-- EndpointRaw
pub record EndpointRaw (V : Type 0) : Type 0 where
  pub node : String
  pub iface : String
  pub mac : String
  pub ipv4 : String
  pub ipv6 : String
  pub vars : Option V

unfoldable pub new_endpoint_raw : {V : Type 0} → String → String → String → EndpointRaw V
new_endpoint_raw node node_if mac = record {
  node = node;
  iface = node_if;
  mac = mac;
  ipv4 = "";
  ipv6 = "";
  vars = none;
}

pub record LinkMacVlanRaw (V : Type 0) : Type 0 where
  pub common : LinkCommonParams V
  pub host_interface : String
  pub endpoint : EndpointRaw V
  pub mode : String

pub record LinkMgmtNetRaw (V : Type 0) : Type 0 where
  pub common : LinkCommonParams V
  pub host_interface : String
  pub endpoint : EndpointRaw V

pub record LinkHostRaw (V : Type 0) : Type 0 where
  pub common : LinkCommonParams V
  pub host_interface : String
  pub endpoint : EndpointRaw V

pub record LinkVEthRaw (V : Type 0) : Type 0 where
  pub common : LinkCommonParams V
  pub endpoints : List (EndpointRaw V)

pub record LinkBriefRaw (V : Type 0) : Type 0 where
  pub endpoints : List String
  pub common : LinkCommonParams V

-- The links that a brief one may stand for.
pub data RawLink (V : Type 0) : Type 0 where
  mac_vlan : LinkMacVlanRaw V → RawLink V
  mgmt_net : LinkMgmtNetRaw V → RawLink V
  host : LinkHostRaw V → RawLink V
  veth : LinkVEthRaw V → RawLink V

-- isInFilter: an empty filter lets all links through.
unfoldable pub is_in_filter : {V : Type 0} → List String → List (EndpointRaw V) → Bool
is_in_filter nodes_filter endpoints =
    if is_empty nodes_filter then true else all_inside nodes_filter endpoints
  where
    all_inside : {V : Type 0} → List String → List (EndpointRaw V) → Bool
    all_inside nodes_filter [] = true
    all_inside nodes_filter (e ∷ endpoints) =
        if elem e.node nodes_filter then all_inside nodes_filter endpoints else false
