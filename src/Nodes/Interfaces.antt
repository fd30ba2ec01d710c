-- ===== src/Nodes/Interfaces.antt =====
-- nodes/default_node.go, nodes/vr_node.go, utils/regexp.go and links/endpoint.go: the mapping of
-- interface names, how an endpoint is added to a node, and the checks on its interfaces.
pub mod Mapping
pub mod Overlap
pub mod Checked
pub mod Uniqueness
use Prim.Native.String.{◌++◌ as ◌++s◌}
use containerlab.Links.Store.{Endpoint, Store, update, M, pure, raise, and_then, ◌>>=◌, ◌>>◌, lift}
use containerlab.Links.Ownership.{append_endpoint}
use containerlab.Nodes.Int64.{add64, sub64, less64, atoi, decimal}
use containerlab.Base.{
  ℕ, zero, suc, ◌+◌, ◌-◌, ◌*◌, ◌/◌, ◌%◌, ◌^◌, ◌≤◌, ◌<◌, String, ◌≡◌, refl, sym, ap, ◌∙◌, subst, ◌≢◌,
  ◌↔◌, ◌⊎◌, inl, inr, Bool, true, false, not, ◌&&◌, ◌||◌, Option, none, some, List, [], ◌∷◌, ◌++◌,
  map, arith, str_eq, eq_iff, eq_refl, ltb, leb, ◌==◌, if◌then◌else◌, Bool-cases, is_some, is_empty,
  Error, Outcome, ok, fail, panic, deref, deref-eq-ok, is_ok, eq-ok_of_is_ok,
}
use containerlab.Base.Lists.{length, length-append, elem, Distinct, elem-append, slice}
use containerlab.Base.GoMap.{
  GoMap, lookup, insert, keys, lookup-insert, elem-keys-insert, lookup-eq-none,
}

-- A compiled regular expression: its matches in a text with those of its groups, which are empty
-- where there is no match, and the names of the groups.
pub record Regexp : Type 0 where
  pub find_string_submatch : String → List String
  pub subexp_names : List String

-- r.MatchString(s)
abbrev pub match_string : Regexp → String → Bool
match_string r s = not (is_empty (r.find_string_submatch s))

-- The loop of GetRegexpCaptureGroups, from the group `i` on. A group without a match panics.
unfoldable pub capture_loop : ℕ → List String → List String → GoMap String → Outcome (GoMap String)
capture_loop i [] matches groups = ok groups
capture_loop i (name ∷ names) [] groups =
    if (i == 0) || str_eq name "" then capture_loop (i + 1) names [] groups else panic
capture_loop i (name ∷ names) (m ∷ matches) groups =
    if (i == 0) || str_eq name ""
    then capture_loop (i + 1) names matches groups
    else capture_loop (i + 1) names matches (insert name m groups)

-- GetRegexpCaptureGroups
unfoldable pub get_regexp_capture_groups : Regexp → String → Outcome (GoMap String)
get_regexp_capture_groups r search =
    if is_empty (r.find_string_submatch search)
    then fail Error.no_match
    else capture_loop 0 r.subexp_names (r.find_string_submatch search) []

-- The fields of a DefaultNode that say how its interfaces are named.
pub record InterfaceAliasing : Type 0 where
  pub interface_regexp : Option Regexp
  pub interface_mapped_prefix : String
  pub interface_offset : ℕ
  pub first_data_if_index : ℕ

-- CalculateInterfaceIndex, from the capture groups on.
unfoldable pub index_of_port : InterfaceAliasing → Option String → Outcome ℕ
index_of_port d none = fail Error.no_port_group
index_of_port d (some parsed_index) = elim (atoi parsed_index) [
  | ok parsed_index_int ↦
      ok (add64 (sub64 parsed_index_int d.interface_offset) d.first_data_if_index)
  | fail e ↦ fail e
  | panic ↦ panic
]

-- CalculateInterfaceIndex, for a regexp that is not nil.
unfoldable pub calculate_interface_index : InterfaceAliasing → Regexp → String → Outcome ℕ
calculate_interface_index d r if_name = elim (get_regexp_capture_groups r if_name) [
  | ok capture_groups ↦ index_of_port d (lookup "port" capture_groups)
  | fail e ↦ fail e
  | panic ↦ panic
]

-- GetMappedInterfaceName, from the index on.
unfoldable pub mapped_name : InterfaceAliasing → Outcome ℕ → Outcome String
mapped_name d (ok if_index) =
    if less64 if_index d.first_data_if_index
    then fail Error.interface_out_of_bounds
    else ok (d.interface_mapped_prefix ++s decimal if_index)
mapped_name d (fail e) = fail e
mapped_name d panic = panic

-- GetMappedInterfaceName
unfoldable pub get_mapped_interface_name : InterfaceAliasing → Regexp → String → Outcome String
get_mapped_interface_name d r if_name = mapped_name d (calculate_interface_index d r if_name)

module _ {S : Type 0} where
  -- SetIfaceName and SetIfaceAlias, with the mapped name and the name of the definition.
  unfoldable pub set_names : ℕ → String → M S (Unit {0})
  set_names e mapped s = (
    ok tt,
    record s {
      endpoint =
          update e
            (record (s.endpoint e) { iface_name = mapped; iface_alias = (s.endpoint e).iface_name })
            s.endpoint;
    },
  )

  -- The last lines of AddEndpoint: the node is the owner of an endpoint that had none.
  unfoldable pub attach_endpoint : ℕ → ℕ → M S (Unit {0})
  attach_endpoint n e s = append_endpoint n e (record s {
    endpoint =
        update e
          (record (s.endpoint e) {
            node = elim (s.endpoint e).node [ none ↦ some n | some owner ↦ some owner ];
          })
          s.endpoint;
  })

  -- AddEndpoint of the default node: an interface name that the regexp matches is mapped.
  unfoldable pub add_endpoint : InterfaceAliasing → ℕ → ℕ → M S (Unit {0})
  add_endpoint d n e s = elim d.interface_regexp [
    | none ↦ attach_endpoint n e s
    | some r ↦
        if match_string r (s.endpoint e).iface_name
        then (do
          mapped ← lift (get_mapped_interface_name d r (s.endpoint e).iface_name)
          set_names e mapped
          attach_endpoint n e)
            s
        else attach_endpoint n e s
  ]

-- The inner loop of CheckInterfaceOverlap.
unfoldable pub overlaps_seen : (ℕ → Endpoint) → String → List ℕ → Bool
overlaps_seen endpoint if_name [] = false
overlaps_seen endpoint if_name (o ∷ os) =
    if str_eq if_name (endpoint o).iface_name then true else overlaps_seen endpoint if_name os

-- The outer loop of CheckInterfaceOverlap.
unfoldable pub overlap_loop : (ℕ → Endpoint) → List ℕ → List ℕ → Outcome (Unit {0})
overlap_loop endpoint seen_eps [] = ok tt
overlap_loop endpoint seen_eps (e ∷ es) =
    if overlaps_seen endpoint (endpoint e).iface_name seen_eps
    then fail Error.overlapping_interfaces
    else overlap_loop endpoint (seen_eps ++ (e ∷ [])) es

-- CheckInterfaceOverlap
unfoldable pub check_interface_overlap : {S : Type 0} → Store S → ℕ → Outcome (Unit {0})
check_interface_overlap s n = overlap_loop s.endpoint [] (s.owned n)

-- HasSameNodeAndInterface, for the endpoints `e` and `o`. Nodes are compared by their addresses.
unfoldable pub has_same_node_and_interface : (ℕ → Endpoint) → ℕ → ℕ → Bool
has_same_node_and_interface endpoint e o =
    same_node (endpoint e).node (endpoint o).node
    && str_eq (endpoint e).iface_name (endpoint o).iface_name
  where
    same_node : Option ℕ → Option ℕ → Bool
    same_node none none = true
    same_node (some n) (some m) = n == m
    same_node _ _ = false

-- The loop of CheckEndpointUniqueness.
unfoldable pub uniqueness_loop : (ℕ → Endpoint) → ℕ → List ℕ → Outcome (Unit {0})
uniqueness_loop endpoint e [] = ok tt
uniqueness_loop endpoint e (o ∷ os) =
    if e == o
    then uniqueness_loop endpoint e os
    else if has_same_node_and_interface endpoint e o
    then fail Error.duplicate_endpoint
    else uniqueness_loop endpoint e os

-- CheckEndpointUniqueness. The methods of a node that is nil panic.
unfoldable pub check_endpoint_uniqueness : {S : Type 0} → Store S → ℕ → Outcome (Unit {0})
check_endpoint_uniqueness s e = elim (s.endpoint e).node [
  | none ↦ panic
  | some n ↦ uniqueness_loop s.endpoint e (s.owned n)
]
