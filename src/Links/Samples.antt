-- ===== src/Links/Samples.antt =====
-- Links and interface names, and the theorems about them at these.
use containerlab.Links.{
  LinkCommonParams, not_deployed, EndpointRaw, new_endpoint_raw, LinkMacVlanRaw, host,
}
use containerlab.Links.Brief.{Family, is4, to_type_specific_raw_link}
use containerlab.Links.InterfaceName.{
  byte_length, sanitize_interface_name, is_valid_interface_name, is_valid-sanitize,
}
use containerlab.Base.{
  ℕ, String, ◌≡◌, refl, ◌&&◌, Option, none, some, [], ◌∷◌, str_eq, leb, if◌then◌else◌, ok,
}

abbrev params : LinkCommonParams ℕ
params = record {
  mtu = 1500;
  labels = none;
  ipv4 = [];
  ipv6 = [];
  vars = none;
  deployment_state = not_deployed;
}

abbrev srl : EndpointRaw ℕ
unfolding new_endpoint_raw
srl = new_endpoint_raw "srl" "e1-1" ""

abbrev uplink : LinkMacVlanRaw ℕ
uplink = record { common = params; host_interface = "enp0s3"; endpoint = srl; mode = "" }

-- A parser that knows one prefix.
abbrev one_prefix : String → Option Family
one_prefix s = if str_eq s "10.0.0.1/24" then some is4 else none

-- The special endpoint may come first.
host_first :
    to_type_specific_raw_link one_prefix
      (record { endpoints = "Host:veth1" ∷ "srl:e1-1" ∷ []; common = params })
    ≡ ok (host (record { common = params; host_interface = "veth1"; endpoint = srl }))
unfolding to_type_specific_raw_link new_endpoint_raw
host_first = refl

is_valid-sanitize_example :
    (is_valid_interface_name "ethernet-1/1" ≡ (
      leb (byte_length "ethernet-1/1") 15
      && str_eq (sanitize_interface_name "ethernet-1/1") "ethernet-1/1"))
    × (is_valid_interface_name (sanitize_interface_name "ethernet-1/1")
        ≡ leb (byte_length "ethernet-1/1") 15)
is_valid-sanitize_example = is_valid-sanitize "ethernet-1/1"
