-- ===== src/Links/Store.antt =====
-- links/endpoint.go, links/generic_link_node.go, links/link.go: endpoints and nodes as the objects
-- of a store, and the host that the code reaches through netlink, the container runtime and the
-- files of the network namespaces. A pointer is a number.
use containerlab.Links.{LinkType}
use text.Mathlib.Text.{starts_with}
use containerlab.Base.{
  ℕ, String, Bool, true, false, Option, List, [], ◌∷◌, ◌==◌, if◌then◌else◌, Error, Outcome, ok,
  fail, panic,
}

-- EndpointGeneric, with what the kind of the endpoint says: an EndpointRuntime is discovered at
-- runtime. A node that is nil is `none`, and so is a link that is nil.
pub record Endpoint : Type 0 where
  pub node : Option ℕ
  pub iface_name : String
  pub iface_alias : String
  pub link : Option LinkType
  pub is_runtime_discovered : Bool

-- What the methods read of a DefaultNode (its configuration) or of a GenericLinkNode (its path).
-- `refuses_exec` is true for the kinds whose RunExec only returns an error: bridge, ovs-bridge, and
-- k8s-kind.
pub record LinkNode : Type 0 where
  pub short_name : String
  pub long_name : String
  pub container_name : String
  pub is_default : Bool
  pub is_endpoint_owner : Bool
  pub is_root_namespace_based : Bool
  pub auto_remove : Bool
  pub ns_path : String
  pub exec : List String
  pub refuses_exec : Bool

pub data ContainerStatus : Type 0 where
  not_found running stopped paused created restarting removing : ContainerStatus

-- ContainerHasJoinableNetns
unfoldable pub container_has_joinable_netns : ContainerStatus → Bool
container_has_joinable_netns running = true
container_has_joinable_netns paused = true
container_has_joinable_netns _ = false

-- The attributes of an interface that the code reads. The index of the peer is `none` where
-- netlink.VethPeerIndex fails; `is_veth` says whether the value is a *netlink.Veth.
pub record HostLink : Type 0 where
  pub name : String
  pub kind : String
  pub alt_names : List String
  pub is_veth : Bool
  pub peer_index : Option ℕ

pub data Found : Type 0 where
  found link_not_found lookup_failed : Found

-- The host. A call of netlink, of the runtime or of the file system reads its state and may change
-- it. The first text of a call of netlink is the path of the namespace that it runs in. `pre_stop`
-- is the hook PreStop of the kind of the node, which acts on the container only.
pub record Host : Type 1 where
  pub State : Type 0
  pub get_container_status : String → State → ContainerStatus
  pub get_ns_path : String → State → Outcome String
  pub get_current_ns_path : State → Outcome String
  pub get_ns : String → State → Outcome (Unit {0})
  pub enter_ns : String → State → Outcome (Unit {0}) × State
  pub link_by_name : String → String → State → Outcome HostLink
  pub link_by_index : String → ℕ → State → Found
  pub link_list : String → State → Outcome (List HostLink)
  pub link_add_alt_name : String → String → String → State → Outcome (Unit {0}) × State
  pub link_set_down : String → String → State → Outcome (Unit {0}) × State
  pub link_set_up : String → String → State → Outcome (Unit {0}) × State
  pub link_set_ns_fd : String → String → String → State → Outcome (Unit {0}) × State
  pub hex_sha1 : String → String
  pub sort : List String → List String
  pub file_or_dir_exists : String → State → Bool
  pub lstat : String → State → Bool
  pub mkdir_all : String → State → State
  pub remove : String → State → State
  pub symlink : String → String → State → Outcome (Unit {0}) × State
  pub netns_get : State → Outcome (Unit {0})
  pub netns_new_named : String → State → Outcome (Unit {0}) × State
  pub netns_delete_named : String → State → Outcome (Unit {0}) × State
  pub start_container : String → State → Outcome (Unit {0}) × State
  pub stop_container : String → State → Outcome (Unit {0}) × State
  pub exec : String → List String → State → Outcome (Unit {0}) × State
  pub shlex_split : String → Outcome (List String)
  pub pre_stop : String → State → Outcome (Unit {0}) × State

pub record Store (S : Type 0) : Type 0 where
  pub node : ℕ → LinkNode
  pub next_node : ℕ
  pub endpoint : ℕ → Endpoint
  pub next_endpoint : ℕ
  pub owned : ℕ → List ℕ
  pub host : S

unfoldable pub update {ℓ} : {A : Type ℓ} → ℕ → A → (ℕ → A) → ℕ → A
update k a f j = if j == k then a else f j

-- A method may change the store and still return an error, which keeps the changes.
abbrev pub M : Type 0 → Type 0 → Type 0
M S A = Store S → Outcome A × Store S

module _ {S : Type 0} where
  abbrev pub pure : {A : Type 0} → A → M S A
  pure a s = (ok a, s)

  abbrev pub raise : {A : Type 0} → Error → M S A
  raise e s = (fail e, s)

  unfoldable pub and_then :
      {A : Type 0} {B : Type 0} → Outcome A × Store S → (A → M S B) → Outcome B × Store S
  and_then (ok a, s) f = f a s
  and_then (fail e, s) f = (fail e, s)
  and_then (panic, s) f = (panic, s)

  infixl 5 ◌>>=◌ ◌>>◌
  abbrev pub ◌>>=◌ : {A : Type 0} {B : Type 0} → M S A → (A → M S B) → M S B
  ◌>>=◌ m f s = and_then (m s) f

  abbrev pub ◌>>◌ : {A : Type 0} {B : Type 0} → M S A → M S B → M S B
  ◌>>◌ m f s = and_then (m s) λ _. f

  -- The error that a call returned, as a value. A panic is not caught.
  unfoldable pub caught : {A : Type 0} → Outcome A × Store S → Outcome (Outcome A) × Store S
  caught (ok a, s) = (ok (ok a), s)
  caught (fail e, s) = (ok (fail e), s)
  caught (panic, s) = (panic, s)

  abbrev pub attempt : {A : Type 0} → M S A → M S (Outcome A)
  attempt m s = caught (m s)

  -- err := call; if err != nil { ... }
  unfoldable pub handled :
      {A : Type 0} → Outcome A × Store S → (Error → M S A) → Outcome A × Store S
  handled (ok a, s) f = (ok a, s)
  handled (fail e, s) f = f e s
  handled (panic, s) f = (panic, s)

  abbrev pub handling : {A : Type 0} → M S A → (Error → M S A) → M S A
  handling m f s = handled (m s) f

  -- _ = call
  abbrev pub ignoring : {A : Type 0} → M S A → M S (Unit {0})
  ignoring m = attempt m >>= λ _. pure tt

  -- The first call's error is returned, after the second call, whose own error is dropped or joined.
  abbrev pub recovering : {A : Type 0} → M S A → M S (Unit {0}) → M S A
  recovering m cleanup = handling m λ e. ignoring cleanup >> raise e

  abbrev pub lift : {A : Type 0} → Outcome A → M S A
  lift o s = (o, s)

  unfoldable pub returning : {A : Type 0} → Outcome A × S → Store S → Outcome A × Store S
  returning (o, h) s = (o, record s { host = h })

  -- A call that reads the host, and one that may change it.
  abbrev pub asks : {A : Type 0} → (S → Outcome A) → M S A
  asks call s = (call s.host, s)

  abbrev pub calls : {A : Type 0} → (S → Outcome A × S) → M S A
  calls call s = returning (call s.host) s

abbrev pub ownership_alt_name_prefix : String
ownership_alt_name_prefix = "clab-o-"

-- hasOwnershipAltName
unfoldable pub has_ownership_alt_name : List String → Bool
has_ownership_alt_name [] = false
has_ownership_alt_name (alt_name ∷ alt_names) =
    if starts_with alt_name ownership_alt_name_prefix
    then true
    else has_ownership_alt_name alt_names
