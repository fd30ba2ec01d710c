-- ===== src/Links/Ownership.antt =====
-- links/endpoint.go, links/generic_link_node.go and nodes/default_node.go: code that runs in the
-- namespace of a node, and the moves of an endpoint from one node to another.
pub mod HostOnly
pub mod Invariant
pub mod Moving
pub mod Atomic
pub mod Adopting
use Prim.Native.String.{◌++◌ as ◌++s◌, slice as text_slice}
use containerlab.Links.Store.{
  ownership_alt_name_prefix, Endpoint, container_has_joinable_netns, HostLink, Host, Store, update,
  M, pure, raise, ◌>>=◌, ◌>>◌, attempt, lift, asks, calls, handled, handling, ignoring, recovering,
  has_ownership_alt_name,
}
use containerlab.Base.{
  ℕ, zero, suc, ◌+◌, ◌-◌, ◌*◌, ◌/◌, ◌%◌, ◌^◌, ◌≤◌, ◌<◌, String, ◌≡◌, refl, sym, ap, ◌∙◌, subst, ◌≢◌,
  ◌↔◌, ◌⊎◌, inl, inr, Bool, true, false, not, ◌&&◌, ◌||◌, Option, none, some, List, [], ◌∷◌, ◌++◌,
  map, arith, str_eq, eq_iff, eq_refl, ltb, leb, ◌==◌, if◌then◌else◌, Bool-cases, is_some, is_empty,
  Error, Outcome, ok, fail, panic, deref, deref-eq-ok, is_ok, eq-ok_of_is_ok,
}
use containerlab.Base.Lists.{length, length-append, elem, Distinct, elem-append, slice}
use containerlab.Base.GoMap.{
  GoMap, lookup, insert, keys, lookup-insert, elem-keys-insert, lookup-eq-none,
}

-- Is the address in the list?
abbrev pub has : ℕ → List ℕ → Bool
has e [] = false
has e (o ∷ os) = (e == o) || has e os

-- append(s[:i], s[i+1:]...) at the first place that holds the address, if there is one.
unfoldable pub remove_first : ℕ → List ℕ → Option (List ℕ)
remove_first e [] = none
remove_first e (o ∷ os) =
    let rest = remove_first e os in
    if o == e then some os else elim rest [ none ↦ none | some left ↦ some (o ∷ left) ]

-- The loop of AdoptEndpoint: is the endpoint in the list already, and may it be appended?
unfoldable pub tracks : (ℕ → Endpoint) → ℕ → List ℕ → Outcome Bool
tracks endpoint e [] = ok false
tracks endpoint e (o ∷ os) =
    if o == e
    then ok true
    else if str_eq (endpoint o).iface_name (endpoint e).iface_name
    then fail Error.interface_already_tracked
    else tracks endpoint e os

-- The loop of moveEndpoint over the endpoints of the destination.
unfoldable pub clashes : (ℕ → Endpoint) → ℕ → List ℕ → Outcome (Unit {0})
clashes endpoint e [] = ok tt
clashes endpoint e (o ∷ os) =
    if o == e
    then fail Error.endpoint_already_owned
    else if str_eq (endpoint o).iface_name (endpoint e).iface_name
    then fail Error.interface_already_tracked
    else clashes endpoint e os

module _ {S : Type 0} where
  -- SetNode
  unfoldable pub set_node : ℕ → ℕ → M S (Unit {0})
  set_node e n s =
      (ok tt, record s { endpoint = update e (record (s.endpoint e) { node = some n }) s.endpoint })

  unfoldable pub append_endpoint : ℕ → ℕ → M S (Unit {0})
  append_endpoint n e s = (ok tt, record s { owned = update n (s.owned n ++ (e ∷ [])) s.owned })

  -- AdoptEndpoint
  unfoldable pub adopt_endpoint : ℕ → ℕ → M S (Unit {0})
  adopt_endpoint n e s = elim (s.endpoint e).node [
    | none ↦ raise Error.endpoint_without_owner s
    | some owner ↦
        if str_eq (s.node owner).short_name (s.node n).short_name
        then elim (tracks s.endpoint e (s.owned n)) [
          | ok true ↦ pure tt s
          | ok false ↦ append_endpoint n e s
          | fail error ↦ raise error s
          | panic ↦ (panic, s)
        ]
        else raise Error.foreign_endpoint s
  ]

  -- ReleaseEndpoint
  unfoldable pub release_endpoint : ℕ → ℕ → M S (Unit {0})
  release_endpoint n e s = elim (remove_first e (s.owned n)) [
    | none ↦ raise Error.endpoint_not_owned s
    | some left ↦ (ok tt, record s { owned = update n left s.owned })
  ]

-- GetNSPath of the default node.
unfoldable pub get_ns_path : (H : Host) → ℕ → M H.State String
get_ns_path H n s =
    if (s.node n).is_root_namespace_based
    then (do
      nsp ← asks H.get_current_ns_path
      if str_eq nsp "" then asks (H.get_ns_path (s.node n).container_name) else pure nsp)
        s
    else asks (H.get_ns_path (s.node n).container_name) s

-- The test with which ExecFunction and AddLinkToContainer of the default node begin.
unfoldable pub check_joinable : (H : Host) → ℕ → M H.State (Unit {0})
check_joinable H n s =
    if (s.node n).is_root_namespace_based
    then pure tt s
    else if container_has_joinable_netns (H.get_container_status (s.node n).container_name s.host)
    then pure tt s
    else raise Error.namespace_not_available s

-- The path of the namespace that ExecFunction of the default node runs its function in.
unfoldable pub exec_path : (H : Host) → ℕ → M H.State String
exec_path H n s =
    (do
      check_joinable H n
      nspath ← get_ns_path H n
      nspath ←
          if (s.node n).is_root_namespace_based then asks H.get_current_ns_path else pure nspath
      if str_eq nspath "" then raise Error.namespace_path_not_set else pure nspath)
      s

-- ExecFunction of the default node and of the generic one. The function takes the path of the
-- namespace that it runs in.
unfoldable pub exec_function : {A : Type 0} (H : Host) → ℕ → (String → M H.State A) → M H.State A
exec_function H n body s =
    (do
      nspath ← if (s.node n).is_default then exec_path H n else pure (s.node n).ns_path
      asks (H.get_ns nspath)
      calls (H.enter_ns nspath)
      body nspath)
      s

-- AddLinkToContainer of the default node and of the generic one, with a function that does
-- nothing: the interface of the namespace at `from` is moved to the one of the node.
unfoldable pub add_link_to_container : (H : Host) → ℕ → String → String → M H.State (Unit {0})
add_link_to_container H n from iface s =
    (do
      nsp ←
          if (s.node n).is_default
          then check_joinable H n >> get_ns_path H n
          else pure (s.node n).ns_path
      asks (H.get_ns nsp)
      calls (H.link_set_ns_fd from iface nsp)
      calls (H.enter_ns nsp))
      s

-- moveLink
unfoldable pub move_link : (H : Host) → ℕ → String → ℕ → M H.State (Unit {0})
move_link H src iface_name dst = exec_function H src λ nspath. do
  _ ← asks (H.link_by_name nspath iface_name)
  calls (H.link_set_down nspath iface_name)
  add_link_to_container H dst nspath iface_name

-- The function that activateEndpoint runs in the namespace of the endpoint.
unfoldable pub activate_endpoint : (H : Host) → ℕ → M H.State (Unit {0})
activate_endpoint H e s = elim (s.endpoint e).node [
  | none ↦ (panic, s)
  | some n ↦
      exec_function H n
        (λ nspath. do
          _ ← asks (H.link_by_name nspath (s.endpoint e).iface_name)
          calls (H.link_set_up nspath (s.endpoint e).iface_name))
        s
]

-- ownershipAltName: eight bytes of the sum are sixteen digits.
unfoldable pub ownership_alt_name : (H : Host) → String → String → String
ownership_alt_name H short_name iface_name =
    ownership_alt_name_prefix
    ++s text_slice (H.hex_sha1 ((short_name ++s "\0") ++s iface_name)) 0 16

-- addOwnershipAltName
unfoldable pub add_ownership_alt_name : (H : Host) → String → HostLink → ℕ → M H.State (Unit {0})
add_ownership_alt_name H nspath link e s =
    if has_ownership_alt_name link.alt_names then pure tt s else elim (s.endpoint e).node [
      | none ↦ (panic, s)
      | some n ↦
          calls
            (H.link_add_alt_name nspath link.name
              (ownership_alt_name H (s.node n).short_name (s.endpoint e).iface_name))
            s
    ]

-- ensureOwnershipAltName
unfoldable pub ensure_ownership_alt_name : (H : Host) → ℕ → M H.State (Unit {0})
ensure_ownership_alt_name H e s = elim (s.endpoint e).node [
  | none ↦ (panic, s)
  | some n ↦
      exec_function H n
        (λ nspath. do
          link ← asks (H.link_by_name nspath (s.endpoint e).iface_name)
          add_ownership_alt_name H nspath link e)
        s
]

-- The end of moveEndpoint: the ownership follows the interface, and goes back if the destination
-- does not take it.
unfoldable pub transfer_ownership : {S : Type 0} → ℕ → ℕ → ℕ → M S (Unit {0})
transfer_ownership e src dst = do
  release_endpoint src e
  set_node e dst
  handling (adopt_endpoint dst e)
      λ _. do set_node e src; ignoring (adopt_endpoint src e); raise Error.ownership_update_failed

-- The guards of moveEndpoint that come before any change, for two different nodes.
unfoldable pub check_move : {S : Type 0} → Store S → ℕ → ℕ → ℕ → Outcome (Unit {0})
check_move s e src dst =
    if (s.node src).is_endpoint_owner
    then if (s.node dst).is_endpoint_owner
      then if has e (s.owned src)
        then clashes s.endpoint e (s.owned dst)
        else fail Error.endpoint_not_owned
      else fail Error.no_ownership_moves
    else fail Error.no_ownership_moves

-- moveEndpoint, the source and the destination known to be there.
unfoldable pub move_between : (H : Host) → ℕ → ℕ → ℕ → M H.State (Unit {0})
move_between H e src dst s =
    if src == dst
    then pure tt s
    else (do
      lift (check_move s e src dst)
      ensure_ownership_alt_name H e
      move_link H src (s.endpoint e).iface_name dst
      transfer_ownership e src dst)
        s

-- moveEndpoint
unfoldable pub move_endpoint : (H : Host) → ℕ → Option ℕ → M H.State (Unit {0})
move_endpoint H e dst s = elim (s.endpoint e).node [
  | none ↦ raise Error.no_source_node s
  | some src ↦ elim dst [
    | none ↦ raise Error.no_destination_node s
    | some d ↦ move_between H e src d s
  ]
]
