-- ===== src/Nodes/InterfaceSamples.antt =====
-- Interfaces of two nodes whose names are mapped, and a registry of two kinds.
use containerlab.Nodes.Interfaces.{
  InterfaceAliasing, attach_endpoint, Regexp, capture_loop, get_regexp_capture_groups,
  index_of_port, calculate_interface_index, mapped_name, get_mapped_interface_name, add_endpoint,
  check_interface_overlap, check_endpoint_uniqueness,
}
use containerlab.Base.{
  ℕ, String, ◌≡◌, refl, ◌↔◌, inl, inr, true, false, not, none, some, List, [], ◌∷◌, arith, str_eq,
  ltb, ◌==◌, if◌then◌else◌, Bool-cases, Error, ok, fail, is_ok,
}
use containerlab.Base.Lists.{elem}
use containerlab.Base.GoMap.{lookup, insert}
use containerlab.Links.Store.{update, Endpoint, LinkNode, Store}
use containerlab.Links.Ownership.{append_endpoint, has}
use Prim.Native.String.{◌++◌ as ◌++s◌}
use containerlab.Links.{veth_type}
use containerlab.Links.Ownership.Invariant.{Apart, Owned}
use containerlab.Nodes.Int64.{atoi, decimal}
use containerlab.Nodes.Interfaces.Mapping.{get_mapped_interface_name_lem}
use containerlab.Nodes.Interfaces.Checked.{fresh, adds, built-Owned}
use containerlab.Nodes.Interfaces.Overlap.{check_interface_overlap_lem}
use containerlab.Nodes.Interfaces.Uniqueness.{check_endpoint_uniqueness_lem}
use containerlab.Nodes.Registry.{
  NodeRegistryEntry, NodeRegistry, register, new_node_of_kind, add_names, add_entry,
}
use containerlab.Nodes.Registry.Laws.{any_registered, register_lem}

-- ethernet-1/(?P<port>\d+), on one of its names.
abbrev ethernet : Regexp
ethernet = record {
  find_string_submatch = λ s. if str_eq s "ethernet-1/3" then "ethernet-1/3" ∷ "3" ∷ [] else [];
  subexp_names = "" ∷ "port" ∷ [];
}

abbrev aliasing : InterfaceAliasing
aliasing = record {
  interface_regexp = some ethernet;
  interface_mapped_prefix = "eth";
  interface_offset = 1;
  first_data_if_index = 1;
}

third_port : get_mapped_interface_name aliasing ethernet "ethernet-1/3" ≡ ok "eth3"
unfolding get_mapped_interface_name mapped_name calculate_interface_index index_of_port
    get_regexp_capture_groups capture_loop lookup insert atoi decimal
third_port = refl

captured_port : get_regexp_capture_groups ethernet "ethernet-1/3" ≡ ok (("port", "3") ∷ [])
unfolding get_regexp_capture_groups capture_loop insert
captured_port = refl

three : atoi "3" ≡ ok 3
unfolding atoi
three = refl

get_mapped_interface_name_lem_example :
    get_mapped_interface_name aliasing ethernet "ethernet-1/3"
    ≡ (if ltb 3 1 then fail Error.interface_out_of_bounds else ok ("eth" ++s decimal 3))
unfolding lookup
get_mapped_interface_name_lem_example =
    get_mapped_interface_name_lem aliasing ethernet "ethernet-1/3" "3" (("port", "3") ∷ []) 3
      captured_port refl three (omega arith) (omega arith) (omega arith)

abbrev plain_node : LinkNode
plain_node = record {
  short_name = "srl1";
  long_name = "srl1";
  container_name = "srl1";
  refuses_exec = false;
  is_default = true;
  is_endpoint_owner = true;
  is_root_namespace_based = false;
  auto_remove = false;
  ns_path = "";
  exec = [];
}

abbrev plain_endpoint : String → Endpoint
plain_endpoint name = record {
  node = some 0;
  iface_name = name;
  iface_alias = "";
  link = some veth_type;
  is_runtime_discovered = false;
}

-- Node 0 has the endpoint 0; the endpoint 1 is not added yet.
abbrev half_lab : Store (List String)
half_lab = record {
  node = λ n. plain_node;
  next_node = 1;
  endpoint = λ e. if e == 0 then plain_endpoint "eth1" else plain_endpoint "ethernet-1/3";
  next_endpoint = 2;
  owned = λ n. if n == 0 then 0 ∷ [] else [];
  host = [];
}

half_lab-Owned : Owned half_lab
half_lab-Owned = record {
  owner = λ n e h. ground (arith, h);
  apart = λ n. ground arith;
  allocated = λ n e h. ground (arith, h);
}

-- The lab before the endpoint 0 is added, and after it.
abbrev bare_lab : Store (List String)
bare_lab = record half_lab { owned = λ n. [] }

abbrev no_aliasing : InterfaceAliasing
no_aliasing = record aliasing { interface_regexp = none }

abbrev built_lab : Store (List String)
built_lab = (add_endpoint no_aliasing 0 0 bare_lab).1

built_lab-accepted : (n : ℕ) → check_interface_overlap built_lab n ≡ ok tt
unfolding add_endpoint attach_endpoint append_endpoint update
built_lab-accepted n = elim (Bool-cases (n == 0)) [
  | inl here ↦ (check_interface_overlap_lem built_lab n).1 (rw here (refl, tt))
  | inr other ↦ (check_interface_overlap_lem built_lab n).1 (rw other tt)
]

built-Owned_example : Owned built_lab
built-Owned_example =
    built-Owned built_lab (adds no_aliasing 0 0 (fresh λ n. refl) (omega arith) (inr refl))
      built_lab-accepted

check_interface_overlap_lem_example :
    (check_interface_overlap half_lab 0 ≡ ok tt) ↔ Apart half_lab.endpoint (half_lab.owned 0)
check_interface_overlap_lem_example = check_interface_overlap_lem half_lab 0

check_endpoint_uniqueness_lem_example : (check_endpoint_uniqueness half_lab 0 ≡ ok tt) ↔ (
    (o : ℕ)
    → has o (half_lab.owned 0) ≡ true
    → (half_lab.endpoint o).node ≡ some 0
    → (half_lab.endpoint 0).iface_name ≡ (half_lab.endpoint o).iface_name
    → o ≡ 0)
check_endpoint_uniqueness_lem_example = check_endpoint_uniqueness_lem half_lab 0 0 refl

abbrev known_kinds : NodeRegistry String
known_kinds =
    (
      "linux",
      record { node_kind_names = "linux" ∷ []; init_function = "linux node"; attributes = none },
    )
    ∷ []

register_lem_example :
    ((kind : String) (held : NodeRegistryEntry String)
      → lookup kind known_kinds ≡ some held
      → lookup kind (register known_kinds ("srl" ∷ "nokia_srlinux" ∷ []) "srl node" none).1
        ≡ some held)
    × (is_ok (register known_kinds ("srl" ∷ "nokia_srlinux" ∷ []) "srl node" none).0
        ≡ not (any_registered known_kinds ("srl" ∷ "nokia_srlinux" ∷ [])))
    × ((kind : String)
        → is_ok (register known_kinds ("srl" ∷ "nokia_srlinux" ∷ []) "srl node" none).0 ≡ true
        → elem kind ("srl" ∷ "nokia_srlinux" ∷ []) ≡ true
        → new_node_of_kind
            (register known_kinds ("srl" ∷ "nokia_srlinux" ∷ []) "srl node" none).1
            kind
          ≡ ok "srl node")
register_lem_example = register_lem known_kinds ("srl" ∷ "nokia_srlinux" ∷ []) "srl node" none

srl_registered :
    new_node_of_kind (register known_kinds ("srl" ∷ "nokia_srlinux" ∷ []) "srl node" none).1 "srl"
    ≡ ok "srl node"
unfolding register add_entry add_names new_node_of_kind lookup insert
srl_registered = refl
