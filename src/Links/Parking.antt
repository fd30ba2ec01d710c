-- ===== src/Links/Parking.antt =====
-- links/parking_node.go: the interfaces of a container that is stopped wait in the namespace of a
-- parking node. A DefaultNode and the node that embeds it are one object here.
pub mod Stable
pub mod Emptied
pub mod Lossless
use containerlab.Links.{veth_type}
use containerlab.Links.Store.{
  handled, handling, ignoring, recovering, Endpoint, HostLink, link_not_found, Host, update, M,
  pure, raise, ◌>>=◌, ◌>>◌, attempt, lift, asks, has_ownership_alt_name,
}
use containerlab.Links.Ownership.{adopt_endpoint, exec_function, move_endpoint, activate_endpoint}
use containerlab.Base.{
  ℕ, zero, suc, ◌+◌, ◌-◌, ◌*◌, ◌/◌, ◌%◌, ◌^◌, ◌≤◌, ◌<◌, String, ◌≡◌, refl, sym, ap, ◌∙◌, subst, ◌≢◌,
  ◌↔◌, ◌⊎◌, inl, inr, Bool, true, false, not, ◌&&◌, ◌||◌, Option, none, some, List, [], ◌∷◌, ◌++◌,
  map, arith, str_eq, eq_iff, eq_refl, ltb, leb, ◌==◌, if◌then◌else◌, Bool-cases, is_some, is_empty,
  Error, Outcome, ok, fail, panic, deref, deref-eq-ok, is_ok, eq-ok_of_is_ok,
}
use containerlab.Base.Lists.{length, length-append, elem, Distinct, elem-append, slice}
use containerlab.Base.GoMap.{
  GoMap, lookup, insert, keys, lookup-insert, elem-keys-insert, lookup-eq-none,
}

-- isOwnedInterface, for an interface of the namespace at `nspath`.
unfoldable pub is_owned_interface : (H : Host) → String → List String → HostLink → H.State → Bool
is_owned_interface H nspath known_iface_names link host =
    if str_eq link.name "lo" || str_eq link.name "eth0"
    then false
    else if not (str_eq link.kind "veth")
    then false
    else if not (elem link.name known_iface_names) && not (has_ownership_alt_name link.alt_names)
    then false
    else if not link.is_veth
    then false
    else elim link.peer_index [
      | none ↦ false
      | some peer_index ↦ elim (H.link_by_index nspath peer_index host) [
        | link_not_found ↦ true
        | _ ↦ false
      ]
    ]

-- The loop of listOwnedInterfaceNames.
unfoldable pub owned_names :
    (H : Host) → String → List String → List HostLink → H.State → List String
unfolding is_owned_interface
owned_names H nspath known [] host = []
owned_names H nspath known (link ∷ links) host =
    let rest = owned_names H nspath known links host in
    if is_owned_interface H nspath known link host then link.name ∷ rest else rest

-- listOwnedInterfaceNames
unfoldable pub list_owned_interface_names : (H : Host) → ℕ → List String → M H.State (List String)
list_owned_interface_names H n known = do
  ifaces ← exec_function H n λ nspath. do
    links ← asks (H.link_list nspath)
    asks λ host. ok (owned_names H nspath known links host)
  pure (H.sort ifaces)

-- trackedIfaceNames, of one list of endpoints.
unfoldable pub tracked_iface_names : (ℕ → Endpoint) → List ℕ → List String
tracked_iface_names endpoint [] = []
tracked_iface_names endpoint (e ∷ es) = (endpoint e).iface_name ∷ tracked_iface_names endpoint es

-- The first loop of captureCandidates: every endpoint must be found at runtime or be the end of a
-- veth link.
unfoldable pub check_candidates : (ℕ → Endpoint) → List ℕ → Outcome (Unit {0})
check_candidates endpoint [] = ok tt
check_candidates endpoint (e ∷ es) =
    if (endpoint e).is_runtime_discovered
    then check_candidates endpoint es
    else elim (endpoint e).link [
      | some veth_type ↦ check_candidates endpoint es
      | _ ↦ fail Error.not_a_veth_link
    ]

module _ {S : Type 0} where
  -- NewRuntimeEndpoint
  unfoldable pub new_runtime_endpoint : ℕ → String → M S ℕ
  new_runtime_endpoint n iface_name s = (
    ok s.next_endpoint,
    record s {
      endpoint =
          update s.next_endpoint
            (record {
              node = some n;
              iface_name = iface_name;
              iface_alias = "";
              link = none;
              is_runtime_discovered = true;
            })
            s.endpoint;
      next_endpoint = suc s.next_endpoint;
    },
  )

  -- NewRuntimeEndpoint and AdoptEndpoint, as the two loops that discover interfaces call them.
  unfoldable pub adopt_runtime_endpoint : ℕ → String → M S ℕ
  adopt_runtime_endpoint n iface_name = do
    e ← new_runtime_endpoint n iface_name
    adopt_endpoint n e
    pure e

  -- NewParkingNode
  unfoldable pub new_parking_node : String → String → String → M S ℕ
  new_parking_node short_name container_name ns_path s = (
    ok s.next_node,
    record s {
      node =
          update s.next_node
            (record {
              short_name = short_name;
              long_name = container_name;
              container_name = container_name;
              refuses_exec = false;
              is_default = false;
              is_endpoint_owner = true;
              is_root_namespace_based = false;
              auto_remove = false;
              ns_path = ns_path;
              exec = [];
            })
            s.node;
      next_node = suc s.next_node;
      owned = update s.next_node [] s.owned;
    },
  )

  -- The second loop of captureCandidates: interfaces that no endpoint stands for get one.
  unfoldable pub discover_candidates : ℕ → List String → List String → List ℕ → M S (List ℕ)
  discover_candidates n [] known es = pure es
  discover_candidates n (iface_name ∷ iface_names) known es =
      if elem iface_name known then discover_candidates n iface_names known es else do
        e ← adopt_runtime_endpoint n iface_name
        discover_candidates n iface_names (iface_name ∷ known) (es ++ (e ∷ []))

-- captureCandidates
unfoldable pub capture_candidates : (H : Host) → ℕ → M H.State (List ℕ)
capture_candidates H src s =
    (do
      lift (check_candidates s.endpoint (s.owned src))
      runtime_iface_names ← list_owned_interface_names H src []
      discover_candidates src runtime_iface_names (tracked_iface_names s.endpoint (s.owned src))
          (s.owned src))
      s

-- The rollback of CaptureFrom: the endpoints moved so far, the last one first.
unfoldable pub give_back : (H : Host) → List ℕ → ℕ → M H.State (Unit {0})
give_back H [] src = pure tt
give_back H (e ∷ moved) src = do
  ignoring (move_endpoint H e (some src) >> activate_endpoint H e)
  give_back H moved src

-- The loop of CaptureFrom. `moved` has the last endpoint first.
unfoldable pub capture : (H : Host) → ℕ → ℕ → List ℕ → List ℕ → M H.State (Unit {0})
capture H p src moved [] = pure tt
capture H p src moved (e ∷ es) = do
  recovering (move_endpoint H e (some p)) (give_back H moved src)
  capture H p src (e ∷ moved) es

-- CaptureFrom
unfoldable pub capture_from : (H : Host) → ℕ → ℕ → M H.State (Unit {0})
capture_from H p src = do endpoints ← capture_candidates H src; capture H p src [] endpoints

-- The rollback of RestoreTo.
unfoldable pub park_again : (H : Host) → List ℕ → ℕ → M H.State (Unit {0})
park_again H [] p = pure tt
park_again H (e ∷ moved) p = do ignoring (move_endpoint H e (some p)); park_again H moved p

-- The loop of RestoreTo.
unfoldable pub restore : (H : Host) → ℕ → ℕ → List ℕ → List ℕ → M H.State (Unit {0})
restore H p dst moved [] = pure tt
restore H p dst moved (e ∷ es) = do
  recovering (move_endpoint H e (some dst)) (park_again H moved p)
  recovering (activate_endpoint H e) (park_again H (e ∷ moved) p)
  restore H p dst (e ∷ moved) es
