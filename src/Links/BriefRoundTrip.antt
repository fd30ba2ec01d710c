-- ===== src/Links/BriefRoundTrip.antt =====
-- A link in its brief form, read back.
use containerlab.Links.Brief.{endpoint_text, kept_params}
use containerlab.Types.Bind.{colon_join}
use containerlab.Types.Bind.RoundTrip.{NoColon}
use containerlab.Links.{
  LinkType, mac_vlan_type, mgmt_net_type, host_type, parse_link_type, LinkCommonParams, EndpointRaw,
  new_endpoint_raw, LinkMacVlanRaw, LinkMgmtNetRaw, LinkHostRaw, LinkVEthRaw, LinkBriefRaw, RawLink,
  mac_vlan, mgmt_net, host, veth,
}
use containerlab.Base.{String, ◌≡◌, Bool, true, false, [], ◌∷◌, ◌==◌, Outcome, ok}

-- Does the name of a node stand for one of the three special kinds?
abbrev pub special : Outcome LinkType → Bool
special (ok mac_vlan_type) = true
special (ok mgmt_net_type) = true
special (ok host_type) = true
special _ = false

-- An endpoint with a node that is no special one, an interface, and nothing else.
pub record IsPlainEndpoint {V : Type 0} (e : EndpointRaw V) : Type 0 where
  pub no_colon : NoColon e.node
  pub ordinary : special (parse_link_type e.node) ≡ false
  pub no_more : e ≡ new_endpoint_raw e.node e.iface ""

-- What a brief link can say of a link.
pub data IsBriefable {V : Type 0} : RawLink V → Type 0 where
  briefable_mac_vlan :
      {r : LinkMacVlanRaw V}
      → IsPlainEndpoint r.endpoint
      → (r.common.mtu == 0) ≡ false
      → kept_params r.common ≡ r.common
      → r.mode ≡ ""
      → IsBriefable (mac_vlan r)
  briefable_mgmt_net :
      {r : LinkMgmtNetRaw V}
      → IsPlainEndpoint r.endpoint
      → (r.common.mtu == 0) ≡ false
      → kept_params r.common ≡ r.common
      → IsBriefable (mgmt_net r)
  briefable_host :
      {r : LinkHostRaw V}
      → IsPlainEndpoint r.endpoint
      → (r.common.mtu == 0) ≡ false
      → IsBriefable (host r)
  briefable_veth :
      {r : LinkVEthRaw V} {a b : EndpointRaw V}
      → r.endpoints ≡ a ∷ b ∷ []
      → IsPlainEndpoint a
      → IsPlainEndpoint b
      → (r.common.mtu == 0) ≡ false
      → r.common.ipv4 ≡ []
      → r.common.ipv6 ≡ []
      → IsBriefable (veth r)

-- The link without what a brief link does not say.
abbrev pub stripped : {V : Type 0} → RawLink V → RawLink V
stripped (mac_vlan r) = mac_vlan (record r { common = kept_params r.common; mode = "" })
stripped (mgmt_net r) = mgmt_net (record r { common = kept_params r.common })
stripped l = l

abbrev brief_of :
    {V : Type 0} → LinkCommonParams V → EndpointRaw V → String → String → LinkBriefRaw V
brief_of c a kind port = record {
  endpoints = endpoint_text a ∷ colon_join kind port ∷ [];
  common = c;
}
