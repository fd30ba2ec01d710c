-- ===== src/Links/Discovery.antt =====
-- links/parking_node.go: DiscoverOwnedEndpoints, which makes the endpoints of a parking node agree
-- with the interfaces that its namespace holds, and RestoreTo, which begins with it.
pub mod Agreement
pub mod Complete
use containerlab.Links.Store.{Endpoint, Host, M, pure, raise, ◌>>=◌, ◌>>◌}
use containerlab.Links.Ownership.{set_node, adopt_endpoint, release_endpoint}
use containerlab.Links.Parking.{
  list_owned_interface_names, tracked_iface_names, adopt_runtime_endpoint, restore,
}
use containerlab.Base.{
  ℕ, String, Option, none, some, List, [], ◌∷◌, ◌++◌, str_eq, ◌==◌, if◌then◌else◌, Error, panic,
}
use containerlab.Base.Lists.{elem}

-- The first loop: an endpoint of the parking node whose interface is gone leaves the node, and goes
-- back to the original one if the topology declares it.
unfoldable pub drop_missing : {S : Type 0} → ℕ → ℕ → List String → List ℕ → M S (Unit {0})
drop_missing p original discovered [] s = pure tt s
drop_missing p original discovered (e ∷ es) s =
    if elem (s.endpoint e).iface_name discovered
    then drop_missing p original discovered es s
    else (do
      release_endpoint p e
      if (s.endpoint e).is_runtime_discovered
          then pure tt
          else (do set_node e original; adopt_endpoint original e)
      drop_missing p original discovered es)
        s

-- known[name]: the last endpoint of the list with this name.
unfoldable pub known : (ℕ → Endpoint) → String → List ℕ → Option ℕ
known endpoint name [] = none
known endpoint name (e ∷ es) = elim (known endpoint name es) [
  | some later ↦ some later
  | none ↦ if str_eq (endpoint e).iface_name name then some e else none
]

-- One round of the last loop, for an interface that an endpoint stands for.
unfoldable pub take_over : {S : Type 0} → ℕ → ℕ → M S (Unit {0})
take_over p e s = elim (s.endpoint e).node [
  | none ↦ (panic, s)
  | some owner ↦
      if owner == p
      then pure tt s
      else if (s.node owner).is_endpoint_owner
      then (do release_endpoint owner e; set_node e p; adopt_endpoint p e) s
      else raise Error.no_ownership_moves s
]

-- The last loop. `endpoints` is what the map of the known endpoints was filled from.
unfoldable pub claim : {S : Type 0} → ℕ → List ℕ → List String → M S (Unit {0})
claim p endpoints [] s = pure tt s
claim p endpoints (iface_name ∷ iface_names) s =
    (do
      elim (known s.endpoint iface_name endpoints) [
        | some e ↦ take_over p e
        | none ↦ do _ ← adopt_runtime_endpoint p iface_name; pure tt
      ]
      claim p endpoints iface_names)
      s

-- From the first loop on.
unfoldable pub reconcile : {S : Type 0} → ℕ → ℕ → List String → M S (Unit {0})
reconcile p original iface_names s =
    (do
      drop_missing p original iface_names (s.owned p)
      λ t. claim p (t.owned original ++ t.owned p) iface_names t)
      s

-- DiscoverOwnedEndpoints
unfoldable pub discover_owned_endpoints : (H : Host) → ℕ → ℕ → M H.State (Unit {0})
discover_owned_endpoints H p original s =
    (do
      iface_names ←
          list_owned_interface_names H p
            (tracked_iface_names s.endpoint (s.owned original ++ s.owned p))
      reconcile p original iface_names)
      s

-- RestoreTo
unfoldable pub restore_to : (H : Host) → ℕ → ℕ → M H.State (Unit {0})
restore_to H p dst = do discover_owned_endpoints H p dst; λ s. restore H p dst [] (s.owned p) s
