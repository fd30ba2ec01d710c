-- ===== src/Types/Topology/Sound.antt =====
-- Topologies in which no resolution of a kind or a group dereferences a nil pointer.
use containerlab.Types.Topology.{Topology, get_kind, get_node_group, get_node_kind, kind_group}
use containerlab.Base.{String, ◌≡◌, true, arith, is_some, is_ok, eq-ok_of_is_ok}

-- No nil pointer stands where the resolution dereferences one: the defaults are there, and every
-- kind that the kinds section names has a definition.
pub record IsSound (t : Topology) : Type 0 where
  pub has_defaults : is_some t.defaults ≡ true
  pub has_kind : (k : String) → is_some (get_kind t k) ≡ true

pub is_ok-get_node_kind : (t : Topology) (n : String) → IsSound t → is_ok (get_node_kind t n) ≡ true
unfolding get_node_kind
is_ok-get_node_kind t n h = ground arith

is_ok-kind_group : (t : Topology) (k : String) → IsSound t → is_ok (kind_group t k) ≡ true
unfolding kind_group
is_ok-kind_group t k h = ground (arith, h.has_kind k)

pub is_ok-get_node_group :
    (t : Topology) (n : String) → IsSound t → is_ok (get_node_group t n) ≡ true
unfolding get_node_group
is_ok-get_node_group t n h =
    let (k, e) = eq-ok_of_is_ok (get_node_kind t n) (is_ok-get_node_kind t n h) in
    ground (arith, is_ok-kind_group t k h, e)
