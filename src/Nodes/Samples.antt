-- ===== src/Nodes/Samples.antt =====
-- A lab of two nodes on a host that answers every call, and on one that moves no interface.
use containerlab.Nodes.Lifecycle.Parked.{AreParked, stop-eq-ok}
use containerlab.Base.{
  ℕ, String, ◌≡◌, refl, ◌⊎◌, true, false, none, some, List, [], ◌∷◌, arith, str_eq, ◌==◌,
  if◌then◌else◌, Error, ok, fail,
}
use containerlab.Nodes.Lifecycle.{
  parking_netns_name, get_named_net_ns, existing_named_net_ns, create_named_net_ns,
  create_or_get_named_net_ns, link_container_ns, parking_node_of, park_endpoints,
  lifecycle_stop_containers, parsed_command, run_commands, should_skip_lifecycle, stop_container,
  stop_by_status, stop, start,
}
use containerlab.Links.Parking.{
  owned_names, list_owned_interface_names, new_parking_node, check_candidates, discover_candidates,
  capture_candidates, give_back, capture, capture_from,
}
use containerlab.Links.Ownership.{
  remove_first, tracks, clashes, set_node, append_endpoint, adopt_endpoint, release_endpoint,
  get_ns_path, check_joinable, exec_path, exec_function, add_link_to_container, move_link,
  activate_endpoint, add_ownership_alt_name, ensure_ownership_alt_name, transfer_ownership,
  check_move, move_between, move_endpoint,
}
use containerlab.Links.Parking.Lossless.{Held, capture-Held}
use containerlab.Links.Ownership.Atomic.{IsMove, move_endpoint-IsMove}
use containerlab.Nodes.Lifecycle.Commands.{is_panic, run_commands-is_panic}
use containerlab.Nodes.Lifecycle.Agreement.{stop-Owned, start-Owned}
use containerlab.Links.Store.{
  container_has_joinable_netns, and_then, caught, handled, returning, update,
  has_ownership_alt_name, Endpoint, LinkNode, running, HostLink, link_not_found, Host, Store,
}
use containerlab.Links.{veth_type}
use containerlab.Links.Ownership.Invariant.{Owned}

-- The state of this host is the list of the interfaces that moved to another namespace.
abbrev host_link : String → HostLink
host_link name = record {
  name = name;
  kind = "veth";
  alt_names = [];
  is_veth = true;
  peer_index = none;
}

abbrev willing : Host
willing = record {
  State = List String;
  get_container_status = λ _ _. running;
  get_ns_path = λ _ _. ok "/proc/1/ns/net";
  get_current_ns_path = λ _. ok "/proc/self/ns/net";
  get_ns = λ _ _. ok tt;
  enter_ns = λ _ s. (ok tt, s);
  link_by_name = λ _ name _. ok (host_link name);
  link_by_index = λ _ _ _. link_not_found;
  link_list = λ _ _. ok [];
  link_add_alt_name = λ _ _ _ s. (ok tt, s);
  link_set_down = λ _ _ s. (ok tt, s);
  link_set_up = λ _ _ s. (ok tt, s);
  link_set_ns_fd = λ _ name _ s. (ok tt, name ∷ s);
  hex_sha1 = λ name. name;
  sort = λ names. names;
  file_or_dir_exists = λ _ _. false;
  lstat = λ _ _. false;
  mkdir_all = λ _ s. s;
  remove = λ _ s. s;
  symlink = λ _ _ s. (ok tt, s);
  netns_get = λ _. ok tt;
  netns_new_named = λ _ s. (ok tt, s);
  netns_delete_named = λ _ s. (ok tt, s);
  start_container = λ _ s. (ok tt, s);
  stop_container = λ _ s. (ok tt, s);
  exec = λ _ _ s. (ok tt, s);
  shlex_split = λ e. if str_eq e "echo \"" then fail Error.host_failed else ok (e ∷ []);
  pre_stop = λ _ s. (ok tt, s);
}

-- This host does not move the interface e1-2.
abbrev stubborn : Host
stubborn = record willing {
  link_set_ns_fd =
      λ _ name _ s. if str_eq name "e1-2" then (fail Error.host_failed, s) else (ok tt, name ∷ s);
}

abbrev node_of : String → LinkNode
node_of name = record {
  short_name = name;
  long_name = name;
  container_name = name;
  refuses_exec = false;
  is_default = true;
  is_endpoint_owner = true;
  is_root_namespace_based = false;
  auto_remove = false;
  ns_path = "";
  exec = "ip link" ∷ [];
}

abbrev endpoint_of : ℕ → String → Endpoint
endpoint_of n name = record {
  node = some n;
  iface_name = name;
  iface_alias = "";
  link = some veth_type;
  is_runtime_discovered = false;
}

-- Node 0 has the endpoints 0 and 1, node 1 has none.
abbrev lab : Store (List String)
lab = record {
  node = λ n. if n == 0 then node_of "srl1" else node_of "srl2";
  next_node = 2;
  endpoint = λ e. if e == 0 then endpoint_of 0 "e1-1" else endpoint_of 0 "e1-2";
  next_endpoint = 2;
  owned = λ n. if n == 0 then 0 ∷ 1 ∷ [] else [];
  host = [];
}

lab-Owned : Owned lab
lab-Owned = record {
  owner = λ n e h. ground (arith, h);
  apart = λ n. ground arith;
  allocated = λ n e h. ground (arith, h);
}

abbrev stopped_lab : Store (List String)
stopped_lab = (stop willing 0 lab).1

stop_returns : stop willing 0 lab ≡ (ok tt, stopped_lab)
unfolding parking_netns_name stop stop_by_status stop_container should_skip_lifecycle park_endpoints
    parking_node_of create_or_get_named_net_ns get_named_net_ns create_named_net_ns
    existing_named_net_ns new_parking_node capture_from capture_candidates check_candidates
    list_owned_interface_names owned_names discover_candidates capture move_endpoint move_between
    check_move clashes ensure_ownership_alt_name add_ownership_alt_name has_ownership_alt_name
    move_link add_link_to_container exec_function exec_path check_joinable get_ns_path
    container_has_joinable_netns transfer_ownership release_endpoint remove_first set_node
    adopt_endpoint tracks append_endpoint link_container_ns lifecycle_stop_containers and_then
    handled caught returning update
stop_returns = refl

-- One of the interfaces does not move: the other one is moved back.
parking_fails : (capture stubborn 1 0 [] (0 ∷ 1 ∷ []) lab).0 ≡ fail Error.host_failed
unfolding capture give_back move_endpoint move_between check_move clashes ensure_ownership_alt_name
    add_ownership_alt_name has_ownership_alt_name move_link add_link_to_container exec_function
    exec_path check_joinable get_ns_path container_has_joinable_netns transfer_ownership
    release_endpoint remove_first set_node adopt_endpoint tracks append_endpoint activate_endpoint
    and_then handled caught returning update
parking_fails = refl

lab-Held : Held 0 lab
unfolding Held
lab-Held = (0, refl)

stop-eq-ok_example : AreParked 0 lab stopped_lab
unfolding should_skip_lifecycle
stop-eq-ok_example =
    stop-eq-ok willing 0 lab stopped_lab lab-Owned (omega arith) refl refl stop_returns

stop-Owned_example : Owned stopped_lab
stop-Owned_example = stop-Owned willing 0 lab lab-Owned

start-Owned_example : Owned (start willing 0 stopped_lab).1
start-Owned_example = start-Owned willing 0 stopped_lab (stop-Owned willing 0 lab lab-Owned)

move_endpoint-IsMove_example : IsMove lab 1 0 1 (move_endpoint stubborn 1 (some 1) lab)
move_endpoint-IsMove_example =
    move_endpoint-IsMove stubborn lab 1 0 1 refl λ same. absurd (omega (arith, same))

capture-Held_example : Held 0 (capture stubborn 1 0 [] (0 ∷ 1 ∷ []) lab).1
capture-Held_example = capture-Held stubborn 1 0 (0 ∷ 1 ∷ []) lab 0 lab-Held

run_commands-is_panic_example :
    (((lab.node 0).refuses_exec ≡ true)
      × (run_commands willing 0 ("ip link" ∷ "echo \"" ∷ []) lab ≡ (ok tt, lab)))
    ⊎ (((lab.node 0).refuses_exec ≡ false)
        × (is_panic (run_commands willing 0 ("ip link" ∷ "echo \"" ∷ []) lab).0 ≡ true))
unfolding parsed_command
run_commands-is_panic_example =
    run_commands-is_panic willing (λ name cmd h. refl) 0 ("ip link" ∷ "echo \"" ∷ []) lab
